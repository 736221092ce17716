-- ===== src/Tests/Settings.antt =====
-- Parameters of modules at concrete inputs.
use aacp.Prelude.{ℕ, ◌≡◌, refl, some, [], ◌∷◌, if◌then◌else◌, str_eq}
use aacp.Exec.{ok}
use aacp.Codec.{Json}
use aacp.State.Engine.{Store, set, insert}
use aacp.State.Keys.{param_key}
use aacp.State.Nonce.{get_nonce}
use aacp.State.Params.{set_param, get_param}
use aacp.State.Params.Laws.{params_roundtrip}
use aacp.Tests.Fixtures.{alice}
use aacp.Tests.Slots.{Slot, kept, slots, json_of, json_of-JsonLaw}

abbrev number : Json (Slot ℕ) ℕ
number = json_of (λ n. n) some

abbrev old : Store (Slot ℕ)
old = record {
  entries = ("params/gov/quorum", kept 3) ∷ ("params/gov/term", kept 100) ∷ [];
  version = 1;
}

abbrev changed : Store (Slot ℕ)
changed = record {
  entries = ("params/gov/quorum", kept 5) ∷ ("params/gov/term", kept 100) ∷ [];
  version = 1;
}

set-changed : set_param number old "gov" "quorum" 5 ≡ ok changed
unfolding set_param set insert param_key
set-changed = refl

params_roundtrip_example :
    (get_param number changed "gov" "term"
      ≡ (if str_eq "quorum" "term" then some 5 else get_param number old "gov" "term"))
    × (get_nonce slots changed alice ≡ get_nonce slots old alice)
params_roundtrip_example =
    params_roundtrip number slots old changed "gov" "quorum" "term" 5 alice
      (json_of-JsonLaw (λ n. n) some λ n. refl) set-changed
