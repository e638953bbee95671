-- ===== src/BrowserTerminal/Joined.antt =====
-- The terminal session that a browser is attached to.
use mini_control_public.Prelude.{
  ℕ, ◌≡◌, ◌∙◌, refl, ap, Bool, true, false, ◌&&◌, not, List, Option, none, some, find_if,
  find_if-passes, find_if-delete_where_self, if-cases, and_both, not-false, Option-cases, inl, inr,
}
use mini_control_public.Text.{Text, text_eq, text_eq_iff, trim_space}
use mini_control_public.Model.{Workstation, Member, PowerState}
use mini_control_public.Db.{Db}
use mini_control_public.Http.{is_empty}
use mini_control_public.Proxy.{SessionManager, ProxySession, create, close, get, new_session, named}
use mini_control_public.Proxy.Race.{close-absent}
use mini_control_public.MyWorkstations.{WorkstationStore, Resolved, resolved, api_error}
use mini_control_public.MyWorkstations.Owned.{IsHeld, resolve-IsHeld}
use mini_control_public.ProxySessions.Opened.{is_running-running}
use mini_control_public.ProxySessions.{is_running}
use mini_control_public.TerminalSessions
use mini_control_public.TerminalSessions.{TerminalSession, create_terminal, get_terminal}
use mini_control_public.BrowserTerminal.{
  TerminalReply, turned_away, not_accepted, closes_with, attaches_to, Sessions, Chance, Net,
  Settings, terminal_proxy_session, ssh_starts, dial_internal_proxy_web_socket, open_terminal,
  join_workstation, recover, handle_browser_terminal_web_socket,
}

-- No session of an ID is left once it is closed.
pub get-close : (i : Text) (sm : SessionManager) → get (close i sm) i ≡ none
unfolding close get
get-close i sm = elim (Option-cases (find_if (named i) sm.sessions)) [
  | inl e ↦ ap (λ x. get x i) (close-absent i sm e) ∙ e
  | inr (s, e) ↦ rw (e, close) (find_if-delete_where_self (named i) sm.sessions)
]

-- What is found under an ID has it.
get_terminal-id :
    (j : Text) (ts : List TerminalSession) (t : TerminalSession)
    → get_terminal j ts ≡ some t
    → t.id ≡ j
unfolding get_terminal
get_terminal-id j ts t e =
    let test : TerminalSession → Bool = λ u. u.listed && TerminalSessions.named j u in
    (text_eq_iff t.id j).0
      (and_both t.listed (TerminalSessions.named j t) (find_if-passes test ts t e)).1

module _ (normalize_host : Text → Text) (net : Net) (settings : Settings) (chance : Chance) where
  -- A browser gets a session of its member that is there, or a new one, in front of a running
  -- workstation of the member, by way of a new proxy session to its
  -- SSH port. Where it gets none, there is no new terminal session and no new proxy session.
  abbrev pub Joined : Text → (Workstation → Type 0) → Sessions → TerminalReply × Sessions → Type 0
  Joined m held ss (turned_away, ss') = ss' ≡ ss
  Joined m held ss (not_accepted, ss') = ss' ≡ ss
  Joined m held ss (closes_with code why, ss') =
      (ss'.terminals ≡ ss.terminals) × (get ss'.proxy chance.proxy_uuid ≡ none)
  Joined m held ss (attaches_to j true, ss') =
      (ss' ≡ ss)
      × ((t : TerminalSession) × (get_terminal j ss.terminals ≡ some t) × (t.member_id ≡ m))
  Joined m held ss (attaches_to j false, ss') =
      (w : Workstation) × held w
      × (w.power_state ≡ PowerState.running)
      × (ss'.terminals ≡ create_terminal j m w.id w.worker_id ss.terminals)
      × (ss'.proxy ≡ create (terminal_proxy_session normalize_host net settings chance w) ss.proxy)

  module _ (m : Text) (held : Workstation → Type 0) (ss : Sessions)
      (fresh : get ss.proxy chance.proxy_uuid ≡ none) where
    open_terminal-Joined :
        (cols rows : ℕ) (w : Workstation)
        → held w
        → is_running w.power_state ≡ true
        → Joined m held ss (open_terminal normalize_host net settings chance m cols rows w ss)
    unfolding open_terminal
    open_terminal-Joined cols rows w wanted up =
        let s : ProxySession = terminal_proxy_session normalize_host net settings chance w in
        let gone : get (close s.id (create s ss.proxy)) chance.proxy_uuid ≡ none =
          unfold new_session in get-close chance.proxy_uuid (create s ss.proxy) in
        if-cases {A = TerminalReply × Sessions} (Joined m held ss)
          (not (dial_internal_proxy_web_socket normalize_host net settings chance s)) _ _
          (λ failed. (refl, gone))
          (λ dialed.
            if-cases {A = TerminalReply × Sessions} (Joined m held ss)
              (not (ssh_starts normalize_host net settings chance cols rows)) _ _
              (λ failed. (refl, gone))
              (λ there. (w, wanted, is_running-running w.power_state up, refl, refl)))

    join_workstation-Joined :
        (cols rows : ℕ) (r : Resolved)
        → ((w : Workstation) → r ≡ resolved w → held w)
        → Joined m held ss (join_workstation normalize_host net settings chance m cols rows ss r)
    join_workstation-Joined cols rows (api_error status why) h = (refl, fresh)
    join_workstation-Joined cols rows (resolved w) h =
        if-cases {A = TerminalReply × Sessions} (Joined m held ss) (not (is_running w.power_state))
          _ _ (λ down. (refl, fresh))
          (λ up. open_terminal-Joined cols rows w (h w refl) (not-false _ up))

    recover-Joined :
        (j : Text) (o : Option TerminalSession)
        → get_terminal j ss.terminals ≡ o
        → Joined m held ss (recover normalize_host net settings chance m ss o)
    recover-Joined j none e = (refl, fresh)
    recover-Joined j (some t) e =
        if-cases {A = TerminalReply × Sessions} (Joined m held ss) (not (text_eq t.member_id m)) _ _
          (λ other. (refl, fresh))
          (λ own. (
            refl,
            (
              t,
              ap (λ k. get_terminal k ss.terminals) (get_terminal-id j ss.terminals t e) ∙ e,
              (text_eq_iff t.member_id m).0 (not-false _ own),
            ),
          ))

  -- A browser of a member is attached to a terminal session of that member that is there, or to a new
  -- one, by way of a new proxy session to the SSH port of a running workstation that the database holds
  -- for the member, the one that is named, or their only one. Where it is attached to none, no terminal session is added, and no
  -- proxy session of the new ID is left, if there was none before.
  pub terminal-Joined :
      (store : WorkstationStore Db) (accepted : Bool) (m : Member)
      (cols rows session workstation : Text) (db : Db) (ss : Sessions)
      → get ss.proxy chance.proxy_uuid ≡ none
      → Joined m.id (IsHeld store db m.id (trim_space workstation)) ss (
          handle_browser_terminal_web_socket normalize_host net settings chance store accepted
            (some m)
            cols
            rows
            session
            workstation
            db
            ss)
  unfolding handle_browser_terminal_web_socket
  terminal-Joined store accepted m cols rows session workstation db ss fresh =
      let P = Joined m.id (IsHeld store db m.id (trim_space workstation)) ss in
      if-cases {A = TerminalReply × Sessions} P (not accepted) _ _ (λ e. refl)
        (λ e.
          if-cases {A = TerminalReply × Sessions} P (not (is_empty (trim_space session))) _ _
            (λ named.
              recover-Joined m.id (IsHeld store db m.id (trim_space workstation)) ss fresh
                (trim_space session) _ refl)
            (λ unnamed.
              join_workstation-Joined m.id (IsHeld store db m.id (trim_space workstation)) ss fresh
                _ _ _ (λ w r. resolve-IsHeld store db m (trim_space workstation) w r)))
