-- ===== src/Examples/TerminalSessions.antt =====
-- Terminals that are typed into, left and found again.
use mini_control_public.Prelude.{
  ℕ, zero, suc, ◌≡◌, ◌≤◌, update_where, refl, false, List, [], ◌∷◌, none, some, arith, All, ◌⊎◌,
}
use mini_control_public.Text.{codes, text_eq}
use mini_control_public.Access.{pos}
use mini_control_public.Terminal.{
  message_text, message_binary, snapshot_frames_after, collect, publish_all,
}
use mini_control_public.Attach.{attach, replay_from, replay, send, send_now, send_frames, settle}
use mini_control_public.TerminalSessions.{
  TerminalSession, Outside, Received, received, eof, new_terminal, read_input, get_terminal,
  clear_attachment, ask, begin_attach, create_terminal, begin_close, give_up, all_resources,
  the_ssh_session, the_ssh_client, the_proxy_conn, the_cleanup, normal_closure, going_away,
}
use mini_control_public.TerminalSessions.Events.{
  Event, attaches, hangs_up, fires, expires, happen, happen_all,
}
use mini_control_public.TerminalSessions.Input.{requests, Obeyed, read_input-Obeyed}
use mini_control_public.TerminalSessions.Closing.{Shut}
use mini_control_public.TerminalSessions.Managed.{
  Held, Settled, Managed, starts, makes, moves, begins, gives, close_rest, Refuses, Managed-Settled,
  get_terminal-Settled, begin_close-Gone,
}
use mini_control_public.TerminalSessions.Later.{is_attach}
use mini_control_public.TerminalSessions.Expiry.{after, Gone, abandoned-Gone}

abbrev quiet_shell : Outside
quiet_shell = record {
  marshal = λ m. 123 ∷ 125 ∷ [];
  ssh = λ calls. none;
  chooses = λ a. false;
  drained = λ a. 128;
}

abbrev prompt : TerminalSession
prompt = new_terminal (codes "t") (codes "ann") (codes "d") (codes "w")

abbrev typed : List Received
typed =
    received message_binary none
    ∷ received message_text
        (some (record { kind = codes "input"; input = codes "ls"; cols = pos 0; rows = pos 0 }))
    ∷ received message_text
        (some (record { kind = codes "resize"; input = []; cols = pos 80; rows = pos 24 }))
    ∷ received message_text none
    ∷ []

read_input-Obeyed_example :
    Obeyed quiet_shell (requests typed) prompt (read_input quiet_shell typed eof prompt)
read_input-Obeyed_example = read_input-Obeyed quiet_shell typed eof prompt

abbrev first_hour : Event
first_hour = attaches ([] ∷ [] ∷ []) 1 80 24 false false

abbrev closing : TerminalSession
closing = begin_close quiet_shell normal_closure (codes "done") prompt none

-- A session whose `close` has given up the SSH session, and not the rest.
evening : Managed quiet_shell (give_up the_ssh_session closing ∷ [])
unfolding create_terminal update_where
evening =
    moves [] [] closing (give_up the_ssh_session closing)
      (moves [] [] prompt closing
        (makes (codes "t") (codes "ann") (codes "d") (codes "w") [] starts)
        (begins normal_closure (codes "done") prompt refl))
      (gives the_ssh_session (the_ssh_client ∷ the_proxy_conn ∷ the_cleanup ∷ []) closing refl refl)

Managed-Settled_example : All Settled (give_up the_ssh_session closing ∷ [])
Managed-Settled_example = Managed-Settled quiet_shell (give_up the_ssh_session closing ∷ []) evening

get_terminal-Settled_example :
    ((give_up the_ssh_session closing).id ≡ codes "t")
    × (Held (give_up the_ssh_session closing)
        ⊎ (Shut (give_up the_ssh_session closing)
            × Refuses quiet_shell (give_up the_ssh_session closing)))
unfolding get_terminal text_eq
get_terminal-Settled_example =
    get_terminal-Settled quiet_shell (give_up the_ssh_session closing ∷ []) (codes "t")
      (give_up the_ssh_session closing) evening refl

begin_close-Gone_example : Gone (
    close_rest quiet_shell all_resources
      ((first_hour ∷ []) ∷ (hangs_up 1 ∷ expires ∷ []) ∷ [])
      (begin_close quiet_shell going_away (codes "gone") prompt none))
begin_close-Gone_example =
    begin_close-Gone quiet_shell going_away (codes "gone")
      ((first_hour ∷ []) ∷ (hangs_up 1 ∷ expires ∷ []) ∷ []) prompt (refl, refl, refl, refl)

abbrev left_alone : List Event
left_alone = attaches ([] ∷ [] ∷ []) 1 80 24 false false ∷ hangs_up 1 ∷ []

abbrev minute : ℕ → Event
minute zero = fires
minute (suc n) = expires

nobody_comes : (n : ℕ) → is_attach (minute n) ≡ false
nobody_comes zero = refl
nobody_comes (suc n) = refl

abandoned-Gone_example :
    (n : ℕ) × ((k : ℕ)
      → n ≤ k
      → Gone (after quiet_shell minute k (happen_all quiet_shell left_alone prompt)))
unfolding happen_all happen begin_attach attach replay_from send send_now send_frames replay settle
    snapshot_frames_after collect ask clear_attachment publish_all
abandoned-Gone_example =
    abandoned-Gone quiet_shell (codes "t") (codes "ann") (codes "d") (codes "w") left_alone minute
      nobody_comes (refl, refl) (0, refl) (λ n. (suc n, omega arith, refl))
