-- ===== src/Controller/Profile.antt =====
-- controller/profile.go: the profiled cycle costs of the NFs.
use text.Mathlib.Text.{◌==◌ as str_eq}
use low_latency_faa_s.Prelude.{ℕ, String, List, [], ◌∷◌, Option, none, some, if◌then◌else◌}

abbrev pub default_cycle_cost : ℕ
default_cycle_cost = 50

abbrev pub nf_cycle_costs : List (String × ℕ)
nf_cycle_costs =
    ("acl", 985)
    ∷ ("aesenc", 44000)
    ∷ ("aesdec", 63000)
    ∷ ("evpaescbc", 9100)
    ∷ ("evpaescbcde", 2800)
    ∷ ("chacha", 6800)
    ∷ ("fc", 100)
    ∷ ("filter", 50)
    ∷ ("hashlb", 560)
    ∷ ("nat", 1500)
    ∷ ("ratelimiter", 50)
    ∷ ("updatettl", 60)
    ∷ ("urlfilter", 6900)
    ∷ ("vlanpush", 290)
    ∷ ("vlanpop", 230)
    ∷ ("none", default_cycle_cost)
    ∷ []

-- The lookup in the map NFCycleCosts.
unfoldable pub find_cost : String → List (String × ℕ) → Option ℕ
find_cost k [] = none
find_cost k ((j, v) ∷ m) = if str_eq j k then some v else find_cost k m
