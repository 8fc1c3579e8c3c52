-- ===== src/Examples/ChannelRuns.antt =====
-- The two ends of a channel of src/channel.rs that participant 4 has created.
use evering.Base.{◌<◌, ◌^◌, ℕ, ◌≡◌, ◌≢◌, refl, arith, true, false, ok, update}
use evering.Atomic.{run, exec}
use evering.Cells.{Cells, apply}
use evering.Channel.Words.{role_word, next_unowned}
use evering.Channel.Roles.{
  Role, Port, creator, invite, adopt, release_loop, released, is_mine, drop_role,
}
use evering.Channel.Release.{LetGo, release_lem}
use evering.Channel.Ports.{adopt_once, Invites, invite_lem}
use evering.Channel.Drops.{drop_ends}
use evering.Root.Growth.{Words}
use evering.Queue.Cursors.{IsGeometry}
use evering.Pool.Layouts.{extend, next_power_of_two}
use evering.Channel.Geometry.{geometry}
use evering.Channel.Laps.{geometry-IsGeometry}

abbrev blank : Cells
blank i = 0

abbrev still : ℕ → Cells → Cells
still n s = s

abbrev issuer : Role
issuer = record { index = 0; generation = 1; owner = 4 }

abbrev open_ends : Cells
open_ends = (run apply (creator 4) blank).1

abbrev port : Port
port = record { role = 1; generation = 2 }

abbrev invited : Cells
invited = (run apply (invite issuer) open_ends).1

invited-port : run apply (invite issuer) open_ends ≡ (ok port, invited)
unfolding creator invite role_word next_unowned apply
invited-port = refl

unowned_small : open_ends 1 < 2 ^ 64
unfolding creator apply
unowned_small = omega arith

invite_lem_example : Invites issuer open_ends (run apply (invite issuer) open_ends)
invite_lem_example = invite_lem issuer open_ends unowned_small

abbrev adopted : Cells
adopted = (run apply (adopt true port 9) invited).1

adopt_once_example :
    exec apply still 0 (adopt true port 11) adopted
    ≢ (ok (record { index = 1; generation = 2; owner = 11 }), adopted)
unfolding creator invite adopt role_word next_unowned released apply
adopt_once_example =
    adopt_once still (λ n s i. omega arith) true true port 9 11 0 0 invited adopted adopted adopted
      (record { index = 1; generation = 2; owner = 9 })
      (record { index = 1; generation = 2; owner = 11 }) (omega arith) refl (λ i. omega arith)

abbrev mine : Role
mine = record { index = 1; generation = 2; owner = 9 }

-- Small numbers in every word.
abbrev two_words : Cells
two_words = update (update blank 0 138) 1 276

two_words-Words : Words two_words
two_words-Words i = ground arith

release_lem_example :
    LetGo still
      (is_mine mine)
      1
      0
      two_words
      3
      (exec apply still 0 (release_loop 3 (is_mine mine) 1 (two_words 1)) two_words)
release_lem_example = release_lem still (is_mine mine) 1 (λ n s w. w) 3 0 two_words two_words-Words

drop_ends_example :
    let (ended, s') = exec apply still 0 (drop_role 3 mine) two_words in
    (ended ≡ true) × (is_mine mine (s' 1) ≡ false)
drop_ends_example =
    drop_ends still (λ n s i. omega arith) mine (λ n s w. w) 3 0 two_words (omega arith)
      two_words-Words

-- Slots of 40 bytes after a header of 136.
geometry-IsGeometry_example :
    (laps : ℕ) × IsGeometry
      (record { capacity = 2; one_lap = 4; send_field = 0; recv_field = 2; owner = 4 })
      laps
unfolding geometry extend next_power_of_two
geometry-IsGeometry_example =
    geometry-IsGeometry (record { size = 136; align = 8 }) (record { size = 40; align = 8 }) 2 0 2 4
      {g = record {
        layout = record { size = 296; align = 8 };
        slots = 136;
        capacity = 2;
        one_lap = 4;
      }}
      refl (omega arith) (omega arith)
