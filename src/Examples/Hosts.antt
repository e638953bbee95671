-- ===== src/Examples/Hosts.antt =====
-- Host names.
use mini_control_public.Prelude.{ℕ, ◌≡◌, refl, true, none, Option}
use mini_control_public.Text.{Text, codes, trim_space}
use mini_control_public.Strings.{contains, has_prefix, to_lower}
use mini_control_public.Host.{host_matches}
use mini_control_public.Host.Normal.{host_matches-first_group}

abbrev same_rune : ℕ → ℕ
same_rune c = c

abbrev no_url : Text → Option Text
no_url t = none

host_matches-first_group_example :
    host_matches same_rune no_url (codes "2001:db8::1") (codes "2001:beef::2") ≡ true
unfolding trim_space contains has_prefix to_lower
host_matches-first_group_example =
    host_matches-first_group same_rune no_url (codes "2001") (codes "db8::1") (codes "beef::2")
      (λ e. cc) refl (refl, refl, refl) (refl, refl, refl)
