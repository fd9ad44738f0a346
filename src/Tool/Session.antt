-- ===== src/Tool/Session.antt =====
-- internal/tool/builtin/exec_session.go: the output buffer of a command that runs in a session, as
-- exec_command and write_stdin read it. A byte is a number. A count of tokens below 0 is as 0, and
-- the exit code -1 is `none`. Starting the command and copying from its pipes are left out: the
-- chunks they read are the inputs.
pub mod Stream
pub mod Reading
use heike.Prelude.{
  ℕ, ◌+◌, ◌-◌, ◌*◌, ◌%◌, ◌^◌, Bool, true, false, ◌||◌, Option, none, some, List, [], ◌∷◌, ◌++◌, eqb,
  leb, ltb, if◌then◌else◌, length, drop,
}
use heike.Errors.{Err, plain}

abbrev pub max_session_buffer_bytes : ℕ
max_session_buffer_bytes = 1048576

pub record ExecSession : Type 0 where
  pub output : List ℕ
  pub read_pos : ℕ
  pub closed : Bool
  pub exit_code : Option ℕ

abbrev pub new_session : ExecSession
new_session = record { output = []; read_pos = 0; closed = false; exit_code = some 0 }

-- The buffer is over its size by `over` bytes.
abbrev pub drop_front : ExecSession → List ℕ → ℕ → ExecSession
drop_front s output over = record s {
  output = drop over output;
  read_pos = if ltb over s.read_pos then s.read_pos - over else 0;
}

-- appendOutput, by the size of the buffer.
abbrev pub append_within : ℕ → ExecSession → List ℕ → ExecSession
append_within size s chunk =
    if leb (length (s.output ++ chunk)) size
    then record s { output = s.output ++ chunk }
    else drop_front s (s.output ++ chunk) (length (s.output ++ chunk) - size)

unfoldable pub append_output : ExecSession → List ℕ → ExecSession
append_output s chunk = append_within max_session_buffer_bytes s chunk

-- What cmd.Wait returns: nil, an exit status, or another error, here its message.
pub data Wait : Type 0 where
  completed : Wait
  exited : Option ℕ → Wait
  failed : List ℕ → Wait

-- waitAndClose up to the channel's close.
unfoldable pub wait_ended : ExecSession → Wait → ExecSession
wait_ended s completed = s
wait_ended s (exited code) = record s { exit_code = code }
wait_ended s (failed message) = record s { exit_code = none; output = s.output ++ message }

-- The product wraps around at 64 bits, and is negative from the half of that on.
abbrev pub approx_chars : ℕ → ℕ
approx_chars tokens = (tokens * 4) % 2 ^ 64

abbrev pub last_chars : List ℕ → ℕ → List ℕ
last_chars output chars =
    if eqb chars 0 || leb (2 ^ 63) chars || leb (length output) chars
    then output
    else drop (length output - chars) output

unfoldable pub truncate_output_by_tokens : List ℕ → ℕ → List ℕ
truncate_output_by_tokens output max_output_tokens =
    if eqb max_output_tokens 0 then output else last_chars output (approx_chars max_output_tokens)

unfoldable pub read_new_output : ExecSession → ℕ → ExecSession × List ℕ
unfolding truncate_output_by_tokens
read_new_output s max_output_tokens = if leb (length s.output) s.read_pos then (s, []) else (
  record s { read_pos = length s.output },
  truncate_output_by_tokens (drop s.read_pos s.output) max_output_tokens,
)

-- The error of a write to a session, where `pipe` is that of the write to the pipe.
unfoldable pub write : ExecSession → Bool → Option Err → Option Err
write s empty pipe =
    if s.closed then some (plain "session is closed" []) else if empty then none else pipe

-- What happens to a session, in the order of its mutex.
pub data Op : Type 0 where
  append : List ℕ → Op
  wait : Wait → Op
  close : Op
  read : ℕ → Op

unfoldable pub step : ExecSession → Op → ExecSession × List ℕ
unfolding append_output wait_ended read_new_output
step s (append chunk) = (append_output s chunk, [])
step s (wait w) = (wait_ended s w, [])
step s close = (record s { closed = true }, [])
step s (read tokens) = read_new_output s tokens

-- The session after the operations, and what each gave to its reader.
unfoldable pub run_ops : ExecSession → List Op → ExecSession × List (List ℕ)
unfolding step
run_ops s [] = (s, [])
run_ops s (op ∷ ops) =
    let next = step s op in let later = run_ops next.0 ops in (later.0, next.1 ∷ later.1)
