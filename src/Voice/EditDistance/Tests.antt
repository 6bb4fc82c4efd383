-- ===== src/Voice/EditDistance/Tests.antt =====
-- The distance of two phonetic keys, and a script between them.
use kitt_assistant.Voice.EditDistance.Scripts.{replace, target, source, keep, Script}
use kitt_assistant.Voice.EditDistance.{bounded_edit_distance}
use kitt_assistant.Voice.EditDistance.Laws.{bounded_edit_distance-Judges, Judges}
use kitt_assistant.Base.{[], some, none, ◌∷◌, ◌≡◌, codes, refl}

one_edit : bounded_edit_distance (codes "kit") (codes "kat") 1 ≡ some 1
unfolding bounded_edit_distance
one_edit = refl

too_far : bounded_edit_distance (codes "kit") (codes "cat") 1 ≡ none
unfolding bounded_edit_distance
too_far = refl

abbrev kit_to_kat : Script
kit_to_kat = keep 107 ∷ replace 105 97 ∷ keep 116 ∷ []

bounded_edit_distance-Judges_example :
    Judges kit_to_kat 1 (bounded_edit_distance (source kit_to_kat) (target kit_to_kat) 1)
bounded_edit_distance-Judges_example = bounded_edit_distance-Judges kit_to_kat 1
