-- ===== src/Orchestrator/Parsing/Scheduled.antt =====
-- Subtasks that were read from lines go through the coordinator.
use mathlib.Core.List.{append-nil}
use mathlib.Core.Path.{subst}
use heike.Prelude.{
  ℕ, suc, ◌≤◌, String, ◌≡◌, ◌≢◌, refl, ap, sym, inl, inr, Bool, true, false, Option, none, some,
  List, [], ◌∷◌, map, arith, ◌==◌, eq_iff, eq_refl, mem, IsDistinct, Bool-cases, All, differ,
}
use heike.Errors.{ok}
use heike.Orchestrator.Batches.{SubTask, resolve_execution_batches}
use heike.Orchestrator.Linking.{ids, find_task}
use heike.Orchestrator.Rounds.{IsSorting}
use heike.Orchestrator.Schedule.{IsSchedule}
use heike.Orchestrator.Acceptance.{resolve_execution_batches-decides}
use heike.Orchestrator.Normalizing.{default_sub_tasks}
use heike.Orchestrator.Parsing.Brackets.{extract_first_balanced_json}
use heike.Orchestrator.Parsing.Lines.{clean_model_json_block, split_text, normalize_task_line}
use heike.Orchestrator.Parsing.{
  Reader, Mode, json_array, json_object, extracted, line_split, goal_default, open_array,
  close_array, open_object, close_object, is_control, or_default, or_mode, parse_part,
  tasks_from_lines, parse_sub_task_array_json, parse_sub_task_object_json, parse_sub_task_lines,
  parse_decomposition_response,
}

-- Tasks with names that wait for nothing.
pub record IsFree (ts : List SubTask) : Type 0 where
  pub distinct : IsDistinct (ids ts)
  pub named : All (λ (s : SubTask). s.id ≢ "") ts
  pub waiting : All (λ (s : SubTask). s.dependencies ≡ []) ts

valid_dependencies :
    (ss ts : List SubTask)
    → All (λ (s : SubTask). s.dependencies ≡ []) ts
    → All
        (λ (s : SubTask). All (λ (d : String). (mem d (ids ss) ≡ true) × (d ≢ s.id)) s.dependencies)
        ts
valid_dependencies ss [] a = tt
valid_dependencies ss (t ∷ ts) a = (
  subst (All (λ (d : String). (mem d (ids ss) ≡ true) × (d ≢ t.id))) (sym a.0) tt,
  valid_dependencies ss ts a.1,
)

ordered_dependencies :
    (done : List String) (ts : List SubTask)
    → All (λ (s : SubTask). s.dependencies ≡ []) ts
    → All (λ (s : SubTask). All (λ (x : String). mem x done ≡ true) s.dependencies) ts
ordered_dependencies done [] a = tt
ordered_dependencies done (t ∷ ts) a =
    (subst (All (λ (x : String). mem x done ≡ true)) (sym a.0) tt, ordered_dependencies done ts a.1)

found_behind :
    (t : SubTask) (ss ts : List SubTask)
    → mem t.id (ids ts) ≡ false
    → All (λ (s : SubTask). find_task ss s.id ≡ some s) ts
    → All (λ (s : SubTask). find_task (t ∷ ss) s.id ≡ some s) ts
unfolding mem
found_behind t ss [] h a = tt
found_behind t ss (s ∷ ts) h a = (
  ground (arith, h, a.0, eq_iff t.id s.id, eq_iff s.id t.id),
  found_behind t ss ts (ground (arith, h)) a.1,
)

found_self :
    (ts : List SubTask) → IsDistinct (ids ts) → All (λ (s : SubTask). find_task ts s.id ≡ some s) ts
found_self [] d = tt
found_self (t ∷ ts) d = (ground (arith, eq_refl t.id), found_behind t ts ts d.0 (found_self ts d.1))

-- One batch holds them all.
IsSchedule-of_free : (ts : List SubTask) → IsFree ts → IsSchedule ts (ts ∷ [])
IsSchedule-of_free ts f = record {
  distinct = subst IsDistinct (sym (append-nil (ids ts))) f.distinct;
  complete = λ x. ap (mem x) (append-nil (ids ts));
  ordered = (ordered_dependencies [] ts f.waiting, tt);
  given = (found_self ts f.distinct, tt);
}

free-scheduled :
    (sorted : List String → List String) (ts : List SubTask)
    → IsSorting sorted
    → IsFree ts
    → (bs : List (List SubTask)) × (resolve_execution_batches sorted (map some ts) ≡ some (ok bs))
      × IsSchedule ts bs
free-scheduled sorted ts sorts f =
    elim (resolve_execution_batches-decides sorted ts sorts (record {
      distinct = f.distinct;
      named = f.named;
      known = valid_dependencies ts ts f.waiting;
    })) [ inl r ↦ r | inr (circle, never) ↦ absurd (never (ts ∷ []) (IsSchedule-of_free ts f)) ]

-- No JSON was found.
abbrev pub is_plain : Mode → Bool
is_plain json_array = false
is_plain json_object = false
is_plain extracted = false
is_plain line_split = true
is_plain goal_default = true

module _ (r : Reader) (named : (n : ℕ) → r.task_id n ≢ "")
    (once : (n m : ℕ) → r.task_id n ≡ r.task_id m → n ≡ m) where
  fresh_id :
      (k n : ℕ) (lines : List String)
      → k ≤ n
      → mem (r.task_id k) (ids (tasks_from_lines r n lines)) ≡ false
  unfolding tasks_from_lines mem
  fresh_id k n [] h = refl
  fresh_id k n (line ∷ lines) h = elim (Bool-cases (normalize_task_line line == "")) [
    | inl blank ↦ rw (blank, tasks_from_lines) (fresh_id k n lines h)
    | inr set ↦
        let rest = fresh_id k (suc n) lines (omega (arith, h)) in
        elim (Bool-cases (r.task_id (suc n) == r.task_id k)) [
          | inl same ↦
              absurd (
                omega
                  (arith, h, once (suc n) k ((eq_iff (r.task_id (suc n)) (r.task_id k)).0 same)))
          | inr other ↦ rw (set, tasks_from_lines) (ground (arith, rest, other))
        ]
  ]

  lines-IsFree : (n : ℕ) (lines : List String) → IsFree (tasks_from_lines r n lines)
  unfolding tasks_from_lines
  lines-IsFree n [] = record { distinct = tt; named = tt; waiting = tt }
  lines-IsFree n (line ∷ lines) = elim (Bool-cases (normalize_task_line line == "")) [
    | inl blank ↦ rw (blank, tasks_from_lines) (lines-IsFree n lines)
    | inr set ↦
        let rest = lines-IsFree (suc n) lines in
        rw (set, tasks_from_lines)
          (record {
            distinct = (fresh_id (suc n) (suc n) lines (omega arith), rest.distinct);
            named = (named (suc n), rest.named);
            waiting = (refl, rest.waiting);
          })
  ]

  default-IsFree : (goal : String) → IsFree (default_sub_tasks goal)
  unfolding default_sub_tasks mem
  default-IsFree goal = record {
    distinct = (refl, tt);
    named = (differ "task-1" "" refl, tt);
    waiting = (refl, tt);
  }

  or_default-IsFree :
      (goal : String) (ts : List SubTask) → IsFree ts → IsFree (or_default r goal ts).0
  or_default-IsFree goal [] f = default-IsFree goal
  or_default-IsFree goal (t ∷ ts) f = elim (Bool-cases (is_control r (t ∷ ts))) [
    | inl control ↦ rw control (default-IsFree goal)
    | inr work ↦ rw work f
  ]

  or_mode-IsFree :
      (found : Option (List SubTask)) (mode : Mode) (rest : List SubTask × Mode)
      → is_plain mode ≡ false
      → (is_plain rest.1 ≡ true → IsFree rest.0)
      → is_plain (or_mode r found mode rest).1 ≡ true
      → IsFree (or_mode r found mode rest).0
  or_mode-IsFree none mode rest m f p = f p
  or_mode-IsFree (some ts) mode rest m f p = absurd (ground (arith, m, p))

  -- A response in which no JSON is found, whether it is read line by line or given up for the goal
  -- itself, makes subtasks that the coordinator always has a schedule of; if the texts of "task-%d"
  -- differ and are not empty, and sorting permutes.
  pub parse_decomposition_response-scheduled :
      (sorted : List String → List String) (raw goal : String)
      → IsSorting sorted
      → is_plain (parse_decomposition_response r raw goal).1 ≡ true
      → (bs : List (List SubTask)) × (resolve_execution_batches sorted
            (map some (parse_decomposition_response r raw goal).0)
          ≡ some (ok bs))
        × IsSchedule (parse_decomposition_response r raw goal).0 bs
  unfolding parse_decomposition_response parse_sub_task_lines
  parse_decomposition_response-scheduled sorted raw goal sorts plain =
      let text = clean_model_json_block raw in
      let first = extract_first_balanced_json open_array close_array text in
      let second = extract_first_balanced_json open_object close_object text in
      free-scheduled sorted (parse_decomposition_response r raw goal).0 sorts (
        or_mode-IsFree (parse_sub_task_array_json r text) json_array _ refl
          (or_mode-IsFree (parse_sub_task_object_json r text) json_object _ refl (
            or_mode-IsFree (parse_part r (parse_sub_task_array_json r) first) extracted _ refl (
              or_mode-IsFree (parse_part r (parse_sub_task_object_json r) second) extracted _ refl
                (λ p.
                  or_default-IsFree goal (parse_sub_task_lines r text)
                    (lines-IsFree 0 (split_text text))))))
          plain)
