-- ===== src/Fileutil/Tests.antt =====
-- The theorem on sorting at a concrete file.
use bgscan.Base.{◌≡◌, refl, ltb, List, [], ◌∷◌, length, Bool}
use bgscan.Config.Texts.{Text, codes}
use bgscan.Fileutil.{sort_in_memory, sort_external}
use bgscan.Fileutil.External.{sort_external-in_memory}

abbrev short : Text → Bool
short l = ltb (length l) 8

abbrev lines : List Text
lines = codes "b" ∷ codes "c" ∷ codes "a" ∷ codes "b" ∷ codes "aa" ∷ []

sort_external-in_memory_example : sort_external short 2 lines ≡ sort_in_memory lines
sort_external-in_memory_example =
    sort_external-in_memory short 2 lines (refl, (refl, (refl, (refl, (refl, tt))))) (λ e. cc)
