-- ===== src/Config/Tests.antt =====
-- Durations and times that are written and read.
use netgraspd.Base.{
  ℕ, ◌*◌, ◌^◌, ◌<◌, ◌≡◌, refl, ◌↔◌, ◌∷◌, [], ◌++◌, ltb, ◌&&◌, if◌then◌else◌, ok, err, arith,
}
use netgraspd.Config.Notifying.{ClockTime}
use netgraspd.Config.Numbers.{decimal}
use netgraspd.Config.Duration.{parse_duration, to_human, unit_size}
use netgraspd.Config.Duration.Roundtrip.{parse_duration-to_human, parse_duration-exact_iff}
use netgraspd.Config.Clock.{clock_from, clock_text, out_of_range, clock_from-clock_text}

parse_duration-to_human_example : parse_duration (to_human 5_400) ≡ ok 5_400
parse_duration-to_human_example = parse_duration-to_human 5_400 (omega arith)

-- As many days as overflow.
parse_duration-exact_iff_example :
    (m : ℕ) × (m < 2 ^ 64)
    × (parse_duration (decimal 1_000_000_000_000_000 ++ (b'd' ∷ [])) ≡ ok m)
    × ((m ≡ 1_000_000_000_000_000 * 86_400) ↔ (1_000_000_000_000_000 * 86_400 < 2 ^ 64))
unfolding unit_size
parse_duration-exact_iff_example =
    parse_duration-exact_iff 1_000_000_000_000_000 b'd' 86_400 (omega arith) refl

abbrev late : ClockTime
late = record { hour = 24; minute = 30 }

clock_from-clock_text_example :
    clock_from (clock_text late)
    ≡ (if ltb late.hour 24 && ltb late.minute 60 then ok late else err out_of_range)
clock_from-clock_text_example = clock_from-clock_text late (omega arith) (omega arith)
