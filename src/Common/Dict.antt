-- ===== src/Common/Dict.antt =====
-- Python's `dict` with string keys: the entries in the order of insertion.
use Prim.Native.String.{String}
use mathlib.Core.Path.{◌≡◌, refl}
use mathlib.Core.Bool.{Bool, true, false}
use mathlib.Core.Option.{Option, none, some}
use mathlib.Core.List.{List, [], ◌∷◌}
use native.Mathlib.Omega.{arith}
use text.Mathlib.TextEquality.{eq_iff}
use ai_agent_hub.Common.Tests.{◌==◌, if◌then◌else◌, string_eq}

abbrev pub Dict {ℓ} : Type ℓ → Type ℓ
Dict V = List (String × V)

module _ {ℓ} {V : Type ℓ} where
  -- `d.get(k)`
  unfoldable pub get : Dict V → String → Option V
  get [] k = none
  get ((j, v) ∷ d) k = if j == k then some v else get d k

  -- `k in d`
  unfoldable pub has : Dict V → String → Bool
  has [] k = false
  has ((j, v) ∷ d) k = if j == k then true else has d k

  -- `d[k] = v`
  unfoldable pub put : Dict V → String → V → Dict V
  put [] k v = (k, v) ∷ []
  put ((j, w) ∷ d) k v = if j == k then (j, v) ∷ d else (j, w) ∷ put d k v

  -- `d.update(e)`
  unfoldable pub update : Dict V → Dict V → Dict V
  unfolding put
  update d [] = d
  update d ((k, v) ∷ e) = update (put d k v) e

  -- A key that is written reads as its last value, any other key as before.
  pub get-put :
      (v : V) (key other : String) (d : Dict V)
      → get (put d key v) other ≡ (if key == other then some v else get d other)
  unfolding put get
  get-put v key other [] = refl
  get-put v key other ((i, w) ∷ d) =
      ground (arith, eq_iff key other, eq_iff i key, eq_iff i other, get-put v key other d)
