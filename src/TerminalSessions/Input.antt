-- ===== src/TerminalSessions/Input.antt =====
-- What a browser types and what reaches the shell.
use mini_control_public.Prelude.{
  zero, suc, ◌≡◌, refl, sym, ◌∙◌, ap, Bool-cases, inl, inr, ◌⊎◌, List, [], ◌∷◌, ◌++◌, Option, none,
  some, if◌then◌else◌, Option-cases,
}
use mini_control_public.Text.{codes, text_eq}
use mini_control_public.Access.{ℤ, pos, negsuc}
use mini_control_public.Http.{is_empty}
use mini_control_public.Terminal.{message_text, message_binary}
use mathlib.Core.List.{append_assoc, append-nil}
use mini_control_public.TerminalSessions.{
  Cause, bad_json, TerminalClientMessage, SshCall, write_string, window_change, TerminalSession,
  Outside, Received, received, ask, resize, obey, receive, next_round, read_input,
}

-- What a size of the window asks for.
abbrev size_request : ℤ → ℤ → Option SshCall
size_request (pos (suc rows)) (pos (suc cols)) = some (window_change (suc rows) (suc cols))
size_request rows cols = none

-- What a message asks the SSH session for: its text if there is any, or its size if that is one.
abbrev pub request_of : TerminalClientMessage → Option SshCall
request_of msg =
    if text_eq msg.kind (codes "input")
    then if is_empty msg.input then none else some (write_string msg.input)
    else if text_eq msg.kind (codes "resize")
    then size_request msg.rows msg.cols
    else none

abbrev listed_with : Option SshCall → List SshCall → List SshCall
listed_with none cs = cs
listed_with (some c) cs = c ∷ cs

-- The requests of the text messages that come before the first that is no JSON.
abbrev pub requests : List Received → List SshCall
requests [] = []
requests (received message_binary msg ∷ rs) = requests rs
requests (received message_text none ∷ rs) = []
requests (received message_text (some msg) ∷ rs) = listed_with (request_of msg) (requests rs)

-- The calls that are made are the first ones of those requested, in order, and nothing else of the
-- session changes. All are made, unless the last one made failed, which is then the error.
pub record Obeyed (outside : Outside) (wanted : List SshCall) (t : TerminalSession)
    (r : TerminalSession × Cause) : Type 0 where
  pub made : List SshCall
  pub later : List SshCall
  pub split : wanted ≡ made ++ later
  pub done : r.0 ≡ record t { calls = t.calls ++ made }
  pub ended : (later ≡ []) ⊎ (outside.ssh r.0.calls ≡ some r.1)

module _ (outside : Outside) where
  abbrev pub asks : Option SshCall → TerminalSession → TerminalSession × Option Cause
  asks none t = (t, none)
  asks (some c) t = ask outside c t

  resize-asks :
      (rows cols : ℤ) (t : TerminalSession)
      → resize outside rows cols t ≡ asks (size_request rows cols) t
  resize-asks (pos zero) cols t = refl
  resize-asks (pos (suc r)) (pos zero) t = refl
  resize-asks (pos (suc r)) (pos (suc c)) t = refl
  resize-asks (pos (suc r)) (negsuc c) t = refl
  resize-asks (negsuc r) cols t = refl

  pub obey-asks :
      (msg : TerminalClientMessage) (t : TerminalSession)
      → obey outside msg t ≡ asks (request_of msg) t
  unfolding obey
  obey-asks msg t = elim (Bool-cases (text_eq msg.kind (codes "input"))) [
    | inl typed ↦ elim (Bool-cases (is_empty msg.input)) [
      | inl nothing ↦ rw (typed, nothing) refl
      | inr full ↦ rw (typed, full) refl
    ]
    | inr other ↦ elim (Bool-cases (text_eq msg.kind (codes "resize"))) [
      | inl sized ↦ rw (other, sized) (resize-asks msg.rows msg.cols t)
      | inr odd ↦ rw (other, odd) refl
    ]
  ]

  -- A session is the same with no call added.
  calls-nil : (t : TerminalSession) → t ≡ record t { calls = t.calls ++ [] }
  calls-nil t = ap (λ cs. record t { calls = cs }) (sym (append-nil t.calls))

  none-Obeyed :
      (wanted : List SshCall) (t : TerminalSession) (e : Cause)
      → wanted ≡ []
      → Obeyed outside wanted t (t, e)
  none-Obeyed wanted t e h = record {
    made = [];
    later = wanted;
    split = refl;
    done = calls-nil t;
    ended = inl h;
  }

  asks-Obeyed :
      (o : Option SshCall) (wanted : List SshCall)
      (rest : TerminalSession → TerminalSession × Cause) (t : TerminalSession)
      → ((u : TerminalSession) → Obeyed outside wanted u (rest u))
      → Obeyed outside (listed_with o wanted) t (next_round outside rest (asks o t))
  unfolding ask
  asks-Obeyed none wanted rest t h = h t
  asks-Obeyed (some c) wanted rest t h = elim (Option-cases (outside.ssh (t.calls ++ c ∷ []))) [
    | inl fine ↦
        let u : TerminalSession = record t { calls = t.calls ++ c ∷ [] } in
        let o = h u in
        rw fine (record {
          made = c ∷ o.made;
          later = o.later;
          split = ap (λ cs. c ∷ cs) o.split;
          done = o.done ∙ ap (λ cs. record t { calls = cs }) (append_assoc t.calls (c ∷ []) o.made);
          ended = o.ended;
        })
    | inr (e, failed) ↦
        rw failed
          (record { made = c ∷ []; later = wanted; split = refl; done = refl; ended = inr failed })
  ]

  -- Of what the text messages of a browser ask for, up to the first that is no JSON, the shell gets
  -- the first calls in order, and nothing else of the session changes while it reads. It gets all of
  -- them unless the last call failed, and then that is the error of the loop.
  pub read_input-Obeyed :
      (rs : List Received) (e : Cause) (t : TerminalSession)
      → Obeyed outside (requests rs) t (read_input outside rs e t)
  unfolding read_input receive
  read_input-Obeyed [] e t = none-Obeyed [] t e refl
  read_input-Obeyed (received message_binary msg ∷ rs) e t = read_input-Obeyed rs e t
  read_input-Obeyed (received message_text none ∷ rs) e t = none-Obeyed [] t bad_json refl
  read_input-Obeyed (received message_text (some msg) ∷ rs) e t = rw (obey-asks msg t) (
      asks-Obeyed (request_of msg) (requests rs) (read_input outside rs e) t
        (λ u. read_input-Obeyed rs e u))
