-- ===== src/Base/Maps.antt =====
-- Go maps keyed by strings: the function from a key to the entry that is there.
use Prim.Native.String.{String}
use mathlib.Core.Path.{◌≡◌}
use mathlib.Core.Option.{Option, none}
use text.Mathlib.Text.{◌==◌ as str_eq}
use text.Mathlib.TextPositions.{eq_refl}
use literaft.Base.Tests.{if◌then◌else◌}

abbrev pub StringMap {ℓ} : Type ℓ → Type ℓ
StringMap V = String → Option V

abbrev pub empty_map {ℓ} : {V : Type ℓ} → StringMap V
empty_map = λ _. none

-- m[k] = v, and delete(m, k) for `none`.
unfoldable pub update {ℓ} : {V : Type ℓ} → StringMap V → String → Option V → StringMap V
update m k v j = if str_eq j k then v else m j

pub update_self {ℓ} :
    {V : Type ℓ} (m : StringMap V) (k : String) (v : Option V) → update m k v k ≡ v
unfolding update
update_self m k v = rw eq_refl
