-- ===== src/TerminalSessions/Managed.antt =====
-- The sessions of a manager, where each call of `close` takes its steps one by one and anything that
-- happens to a session, an `Attach` or a `Get` too, may come between them.
use mini_control_public.Prelude.{
  ℕ, ◌≡◌, ◌∙◌, ◌⊎◌, inl, inr, refl, ap, Bool, true, false, List, [], ◌∷◌, ◌++◌, Option, none, some,
  All, sym, subst, All-update_where, All-find_if, find_if-passes, and_both, ◌&&◌,
}
use mathlib.Core.List.{append_assoc, append-nil}
use mini_control_public.Text.{Text, text_eq_iff}
use mini_control_public.Attach.{Attachment, session_closed}
use mini_control_public.TerminalSessions.{
  StatusCode, attach_error, TerminalSession, Outside, Resource, all_resources, unlist,
  create_terminal, get_terminal, named, begin_close, give_up, begin_attach, broken,
}
use mini_control_public.TerminalSessions.Events.{Event, happen, happen_all}
use mini_control_public.TerminalSessions.Kept.{Sound, HeldAs, QuietAs}
use mini_control_public.TerminalSessions.Sound.{happen-Sound}
use mini_control_public.TerminalSessions.Closing.{
  Shut, StaysShut, happen-Shut, begin_attach-refused,
}
use mini_control_public.TerminalSessions.Expiry.{Gone}

-- A session that is open: it holds everything.
abbrev pub Held : TerminalSession → Type 0
Held t =
    (t.live.history.closed ≡ false)
    × (t.close_once ≡ false)
    × (t.cancelled ≡ false)
    × (t.released ≡ [])

-- What is given up so far, and what `close` still has to give up.
abbrev pub Giving : TerminalSession → Type 0
Giving t = (rest : List Resource) × (t.released ++ rest ≡ all_resources)

abbrev pub Settled : TerminalSession → Type 0
Settled t = Held t ⊎ (Shut t × Giving t)

-- A step of a session: something happens that does not run `close`, or `close` takes a step. Any
-- code and message stand for the calls of `close`.
pub data Step (outside : Outside) : TerminalSession → TerminalSession → Type 0 where
  happens :
      (e : Event) (t : TerminalSession)
      → (happen outside e t).close_once ≡ t.close_once
      → Step outside t (happen outside e t)
  begins :
      (code : StatusCode) (message : Text) (t : TerminalSession)
      → t.close_once ≡ false
      → Step outside t (begin_close outside code message t t.live.attachment)
  gives :
      (r : Resource) (rest : List Resource) (t : TerminalSession)
      → t.close_once ≡ true
      → t.released ++ r ∷ rest ≡ all_resources
      → Step outside t (give_up r t)
  leaves_map :
      (t : TerminalSession)
      → t.close_once ≡ true
      → t.released ≡ all_resources
      → Step outside t (unlist t)

-- The sessions of a manager, behind any calls of `Create` and any steps of the sessions there are.
pub data Managed (outside : Outside) : List TerminalSession → Type 0 where
  starts : Managed outside []
  makes :
      (uuid member_id workstation_id worker_id : Text) (ts : List TerminalSession)
      → Managed outside ts
      → Managed outside (create_terminal uuid member_id workstation_id worker_id ts)
  moves :
      (front back : List TerminalSession) (t u : TerminalSession)
      → Managed outside (front ++ t ∷ back)
      → Step outside t u
      → Managed outside (front ++ u ∷ back)

Held-Sound : (t : TerminalSession) → Held t → Sound t
Held-Sound t (up, once, live, all) =
    subst (λ b. HeldAs b t × QuietAs b t.live) (sym up) ((live, once, λ b. cc b, all), tt)

Sound-Held : (t : TerminalSession) → Sound t → t.close_once ≡ false → Held t
Sound-Held t h once =
    let up : t.live.history.closed ≡ false = sym h.0.1 ∙ once in
    let held : HeldAs false t = subst (λ b. HeldAs b t) up h.0 in (up, once, held.0, held.3)

All-replaced :
    (P : TerminalSession → Type 0) (front back : List TerminalSession) (t u : TerminalSession)
    → (P t → P u)
    → All P (front ++ t ∷ back)
    → All P (front ++ u ∷ back)
All-replaced P [] back t u f h = (f h.0, h.1)
All-replaced P (x ∷ xs) back t u f h = (h.0, All-replaced P xs back t u f h.1)

module _ (outside : Outside) where
  begun-Shut :
      (code : StatusCode) (message : Text) (t : TerminalSession) (o : Option Attachment)
      → t.live.attachment ≡ o
      → Shut (begin_close outside code message t o)
  begun-Shut code message t none e = (refl, refl, refl, e, refl)
  begun-Shut code message t (some a) e = (refl, refl, refl, refl, refl)

  Step-Settled : {t u : TerminalSession} → Step outside t u → Settled t → Settled u
  Step-Settled (happens e t once) (inl held) = inl (
      Sound-Held (happen outside e t) (happen-Sound outside e t (Held-Sound t held))
        (once ∙ held.1))
  Step-Settled (happens e t once) (inr (shut, (rest, given))) =
      let k = happen-Shut outside t shut e in inr (k.0, (rest, ap (λ l. l ++ rest) k.1 ∙ given))
  Step-Settled (begins code message t once) (inl held) = inr (
    begun-Shut code message t t.live.attachment refl,
    (all_resources, ap (λ l. l ++ all_resources) held.3),
  )
  Step-Settled (begins code message t once) (inr (shut, g)) = cc (once, shut.1)
  Step-Settled (gives r rest t once given) (inl held) = cc (once, held.1)
  Step-Settled (gives r rest t once given) (inr (shut, g)) =
      inr (shut, (rest, append_assoc t.released (r ∷ []) rest ∙ given))
  Step-Settled (leaves_map t once given) (inl held) = inl held
  Step-Settled (leaves_map t once given) (inr h) = inr h

  -- What `close` has left to do, with what happens before each of its steps.
  unfoldable pub close_rest : List Resource → List (List Event) → TerminalSession → TerminalSession
  unfolding happen_all
  close_rest [] [] t = unlist t
  close_rest [] (es ∷ between) t = unlist (happen_all outside es t)
  close_rest (r ∷ rest) [] t = close_rest rest [] (give_up r t)
  close_rest (r ∷ rest) (es ∷ between) t =
      close_rest rest between (give_up r (happen_all outside es t))

  happen_all-Shut :
      (es : List Event) (t : TerminalSession) → Shut t → StaysShut t (happen_all outside es t)
  unfolding happen_all
  happen_all-Shut [] t h = (h, refl, refl)
  happen_all-Shut (e ∷ es) t h =
      let k = happen-Shut outside t h e in
      let l = happen_all-Shut es (happen outside e t) k.0 in (l.0, l.1 ∙ k.1, l.2 ∙ k.2)

  close_rest-Gone :
      (rest : List Resource) (between : List (List Event)) (t : TerminalSession)
      → Shut t
      → t.released ++ rest ≡ all_resources
      → Gone (close_rest rest between t)
  unfolding close_rest
  close_rest-Gone [] [] t h g = (h.0, refl, sym (append-nil t.released) ∙ g, h.3)
  close_rest-Gone [] (es ∷ between) t h g =
      let k = happen_all-Shut es t h in (k.0.0, refl, k.1 ∙ sym (append-nil t.released) ∙ g, k.0.3)
  close_rest-Gone (r ∷ rest) [] t h g =
      close_rest-Gone rest [] (give_up r t) h (append_assoc t.released (r ∷ []) rest ∙ g)
  close_rest-Gone (r ∷ rest) (es ∷ between) t h g =
      let k = happen_all-Shut es t h in
      close_rest-Gone rest between (give_up r (happen_all outside es t)) k.0
        (append_assoc _ (r ∷ []) rest ∙ ap (λ l. l ++ r ∷ rest) k.1 ∙ g)

  -- A call of `close` on a session that is open, within no call of `Attach`, with anything that
  -- happens to the session before any of the call's further steps: in the end the session is
  -- closed and not listed, has no attachment, and has given up its SSH session, SSH client,
  -- connection and proxy session, each once.
  pub begin_close-Gone :
      (code : StatusCode) (message : Text) (between : List (List Event)) (t : TerminalSession)
      → Held t
      → Gone
          (close_rest all_resources between (begin_close outside code message t t.live.attachment))
  begin_close-Gone code message between t held =
      close_rest-Gone all_resources between (begin_close outside code message t t.live.attachment)
        (begun-Shut code message t t.live.attachment refl) (ap (λ l. l ++ all_resources) held.3)

  -- However sessions are made, whatever happens to them, and whatever comes between the steps of
  -- their calls of `close`, where no `close` begins within a call of `Attach` that is not reading
  -- yet: a session is either open, and has given up nothing, or it is closed for good, with its
  -- context cancelled, without an attachment and an idle timer, and has given up a first part of
  -- its SSH session, SSH client, connection and proxy session, in this order and each once.
  pub Managed-Settled : (ts : List TerminalSession) → Managed outside ts → All Settled ts
  unfolding create_terminal
  Managed-Settled _ starts = tt
  Managed-Settled _ (makes uuid member_id workstation_id worker_id ts h) = (
    inl (refl, refl, refl, refl),
    All-update_where Settled (named uuid) unlist ts (λ t s. s) (Managed-Settled ts h),
  )
  Managed-Settled _ (moves front back t u h step) =
      All-replaced Settled front back t u (Step-Settled step) (Managed-Settled _ h)

  -- Attaching is refused, as to a session that is closed, and changes nothing.
  abbrev pub Refuses : TerminalSession → Type 0
  Refuses t =
      (rounds : List (List (List ℕ))) (conn cols rows : ℕ) (recovered clears : Bool)
      → begin_attach outside rounds conn cols rows recovered clears t
        ≡ (t, broken (attach_error session_closed))

  -- A session that is found under an ID, between any steps, where no `close` began within a call
  -- of `Attach` that was not reading yet, is one of that ID. It is open and holds all of its
  -- resources, or its `close` is under way: then attaching to it is refused, as to a closed
  -- session, and changes nothing.
  pub get_terminal-Settled :
      (ts : List TerminalSession) (i : Text) (t : TerminalSession)
      → Managed outside ts
      → get_terminal i ts ≡ some t
      → (t.id ≡ i) × (Held t ⊎ (Shut t × Refuses t))
  unfolding get_terminal
  get_terminal-Settled ts i t h e =
      let test : TerminalSession → Bool = λ u. u.listed && named i u in
      let passed = and_both t.listed (named i t) (find_if-passes test ts t e) in
      (
        (text_eq_iff t.id i).0 passed.1,
        elim (All-find_if Settled test ts t (Managed-Settled ts h) e) [
          | inl held ↦ inl held
          | inr (shut, g) ↦ inr (
            shut,
            λ rounds conn cols rows recovered clears.
                begin_attach-refused outside rounds conn cols rows recovered clears t shut.0,
          )
        ],
      )
