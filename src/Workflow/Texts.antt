-- ===== src/Workflow/Texts.antt =====
-- workflow.rs: the texts that the hooks write.
use hmux.Base.{Bool, ◌||◌, [], ◌∷◌}
use hmux.Base.Eq.{Bytes, bytes_beq}

-- "wf-"
abbrev pub wf : Bytes
wf = b'w' ∷ b'f' ∷ b'-' ∷ []

-- "orch-"
abbrev pub orch : Bytes
orch = b'o' ∷ b'r' ∷ b'c' ∷ b'h' ∷ b'-' ∷ []

-- "cx-"
abbrev pub cx : Bytes
cx = b'c' ∷ b'x' ∷ b'-' ∷ []

-- "turn-"
abbrev pub turn : Bytes
turn = b't' ∷ b'u' ∷ b'r' ∷ b'n' ∷ b'-' ∷ []

-- "root-"
abbrev pub root : Bytes
root = b'r' ∷ b'o' ∷ b'o' ∷ b't' ∷ b'-' ∷ []

-- "agent-"
abbrev pub agent : Bytes
agent = b'a' ∷ b'g' ∷ b'e' ∷ b'n' ∷ b't' ∷ b'-' ∷ []

-- "task-"
abbrev pub task : Bytes
task = b't' ∷ b'a' ∷ b's' ∷ b'k' ∷ b'-' ∷ []

-- "root"
abbrev pub root_type : Bytes
root_type = b'r' ∷ b'o' ∷ b'o' ∷ b't' ∷ []

-- "task"
abbrev pub task_type : Bytes
task_type = b't' ∷ b'a' ∷ b's' ∷ b'k' ∷ []

-- "subagent"
abbrev pub subagent : Bytes
subagent = b's' ∷ b'u' ∷ b'b' ∷ b'a' ∷ b'g' ∷ b'e' ∷ b'n' ∷ b't' ∷ []

-- "codex"
abbrev pub codex : Bytes
codex = b'c' ∷ b'o' ∷ b'd' ∷ b'e' ∷ b'x' ∷ []

-- "native"
abbrev pub native : Bytes
native = b'n' ∷ b'a' ∷ b't' ∷ b'i' ∷ b'v' ∷ b'e' ∷ []

-- "detached-codex"
abbrev pub detached_codex : Bytes
detached_codex =
    b'd' ∷ b'e' ∷ b't' ∷ b'a' ∷ b'c' ∷ b'h' ∷ b'e' ∷ b'd' ∷ b'-' ∷ b'c' ∷ b'o' ∷ b'd' ∷ b'e' ∷ b'x'
    ∷ []

-- "request_user_input"
abbrev pub request_user_input : Bytes
request_user_input =
    b'r' ∷ b'e' ∷ b'q' ∷ b'u' ∷ b'e' ∷ b's' ∷ b't' ∷ b'_' ∷ b'u' ∷ b's' ∷ b'e' ∷ b'r' ∷ b'_' ∷ b'i'
    ∷ b'n' ∷ b'p' ∷ b'u' ∷ b't' ∷ []

-- "askuserquestion"
abbrev pub askuserquestion : Bytes
askuserquestion =
    b'a' ∷ b's' ∷ b'k' ∷ b'u' ∷ b's' ∷ b'e' ∷ b'r' ∷ b'q' ∷ b'u' ∷ b'e' ∷ b's' ∷ b't' ∷ b'i' ∷ b'o'
    ∷ b'n' ∷ []

-- "ask_user_question"
abbrev pub ask_user_question : Bytes
ask_user_question =
    b'a' ∷ b's' ∷ b'k' ∷ b'_' ∷ b'u' ∷ b's' ∷ b'e' ∷ b'r' ∷ b'_' ∷ b'q' ∷ b'u' ∷ b'e' ∷ b's' ∷ b't'
    ∷ b'i' ∷ b'o' ∷ b'n' ∷ []

-- The tools that wait for the user.
abbrev pub asks : Bytes → Bool
asks tool =
    bytes_beq tool request_user_input
    || bytes_beq tool askuserquestion
    || bytes_beq tool ask_user_question
