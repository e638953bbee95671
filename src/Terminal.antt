-- ===== src/Terminal.antt =====
-- server/internal/api/rest/terminal_sessions.go: what a terminal session keeps of its output.
-- A chunk of output is a list of bytes. `container/ring` is a list of cells, the pointer at its
-- head; an empty cell holds nil.
pub mod Window
pub mod Recent
use mini_control_public.Prelude.{
  ℕ, zero, suc, ◌+◌, ◌-◌, ◌%◌, Bool, true, false, List, [], ◌∷◌, ◌++◌, Option, none, some, length,
  take, drop, ltb, ◌==◌, if◌then◌else◌,
}

-- `websocket.MessageType`.
pub data MessageType : Type 0 where
  message_text message_binary : MessageType

pub record HistoryFrame : Type 0 where
  pub seq : ℕ
  pub message : MessageType
  pub payload : List ℕ

abbrev pub terminal_history_frames : ℕ
terminal_history_frames = 256

-- Sequence numbers are `uint64`.
abbrev pub uint64_range : ℕ
uint64_range = 18_446_744_073_709_551_616

abbrev pub Ring : Type 0
Ring = List (Option HistoryFrame)

-- `ring.New`.
unfoldable pub ring_new : ℕ → Ring
ring_new zero = []
ring_new (suc n) = none ∷ ring_new n

-- `r.Value = frame`.
abbrev pub set_value : HistoryFrame → Ring → Ring
set_value frame [] = []
set_value frame (c ∷ cs) = some frame ∷ cs

-- `r.Next()`.
abbrev pub next : Ring → Ring
next [] = []
next (c ∷ cs) = cs ++ c ∷ []

-- `r.Move(-n)`, for at most as many steps as there are cells.
abbrev pub move_back : ℕ → Ring → Ring
move_back n r = drop (length r - n) r ++ take (length r - n) r

-- The fields of `terminalSession` that its mutex guards and that the history needs. `none` is the
-- nil ring.
pub record History : Type 0 where
  pub history : Option Ring
  pub history_len : ℕ
  pub next_seq : ℕ
  pub closed : Bool

-- As `Create` makes them.
abbrev pub new_history : History
new_history = record { history = none; history_len = 0; next_seq = 0; closed = false }

-- The ring, made where it is nil.
abbrev pub ring_of : Option Ring → Ring
ring_of none = ring_new terminal_history_frames
ring_of (some r) = r

-- `appendFrameLocked`.
unfoldable pub append_frame : HistoryFrame → History → History
append_frame frame h = record h {
  history = some (next (set_value frame (ring_of h.history)));
  history_len =
      if ltb h.history_len terminal_history_frames then h.history_len + 1 else h.history_len;
}

-- `publishBinary` up to the end of its critical section.
unfoldable pub publish_binary : List ℕ → History → History
unfolding append_frame
publish_binary payload h =
    if h.closed
    then h
    else let seq = (h.next_seq + 1) % uint64_range in
      append_frame (record { seq = seq; message = message_binary; payload = payload })
        (record h { next_seq = seq })

-- The rounds of the loop that are left, from the cell at the head on.
unfoldable pub collect : ℕ → ℕ → Ring → List HistoryFrame
collect zero after_seq r = []
collect (suc rounds) after_seq [] = []
collect (suc rounds) after_seq (none ∷ cs) = collect rounds after_seq cs
collect (suc rounds) after_seq (some frame ∷ cs) =
    let rest = collect rounds after_seq cs in if ltb after_seq frame.seq then frame ∷ rest else rest

-- `snapshotFramesAfter`.
unfoldable pub snapshot_frames_after : ℕ → History → List HistoryFrame × ℕ
unfolding collect
snapshot_frames_after after_seq h =
    if h.history_len == 0
    then ([], h.next_seq)
    else (collect h.history_len after_seq (move_back h.history_len (ring_of h.history)), h.next_seq)

-- What the session's readers publish, one chunk after the other.
unfoldable pub publish_all : List (List ℕ) → History → History
unfolding publish_binary
publish_all [] h = h
publish_all (p ∷ ps) h = publish_all ps (publish_binary p h)
