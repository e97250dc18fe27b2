-- ===== src/Service/Examples.antt =====
-- A reaction that two members get, each with the id that the member knows.
use reticulum_forwarding_ser.Base.{
  ℕ, zero, suc, Bool, false, ◌≤◌, ◌≡◌, ◌≢◌, true, [], ◌∷◌, length, All, Option, none, some,
}
use reticulum_forwarding_ser.Base.Bytes.{Bytes}
use reticulum_forwarding_ser.Service.Fields.{
  int_key, bytes, dict, Dict, empty, entry, field_reaction,
}
use reticulum_forwarding_ser.Service.Rewrite.{substitute_dict_target}
use reticulum_forwarding_ser.Service.Rewrite.Binding.{bound, keys, substitute_dict_target-binds}
use reticulum_forwarding_ser.Service.Forward.{
  forward_to_roster, in_hashes, has_delivery, IsAllowed, IsEligible, forward_to_roster-IsAllowed,
}

abbrev no_numbers : Bytes → Option ℕ
no_numbers s = none

abbrev text_members : Bytes → Bool
text_members h = false

abbrev repeated : ℕ → ℕ → Bytes
repeated zero c = []
repeated (suc n) c = c ∷ repeated n c

abbrev first_hex : Bytes
first_hex = repeated 32 48

abbrev second_hex : Bytes
second_hex = repeated 32 49

abbrev reaction : Dict
reaction =
    entry (int_key 4 field_reaction) (dict (entry (int_key 5 0) (bytes (9 ∷ [])) empty)) empty

substitute_dict_target-binds_example :
    (d : Dict) × (substitute_dict_target no_numbers field_reaction (some (7 ∷ [])) reaction
      ≡ some d)
    × (keys d ≡ keys reaction)
    × (bound no_numbers field_reaction reaction ≡ none → d ≡ reaction)
    × (bound no_numbers field_reaction reaction ≢ none
        → bound no_numbers field_reaction d ≡ some (some (7 ∷ [])))
substitute_dict_target-binds_example =
    substitute_dict_target-binds no_numbers field_reaction (7 ∷ []) reaction

forward_to_roster-IsAllowed_example :
    All (IsAllowed text_members none first_hex (104 ∷ []) reaction (first_hex ∷ second_hex ∷ [])) (
      forward_to_roster text_members none first_hex
        (104 ∷ [])
        reaction
        (first_hex ∷ second_hex ∷ []))
    × ((h : Bytes)
        → in_hashes h (first_hex ∷ second_hex ∷ []) ≡ true
        → IsEligible text_members none first_hex (104 ∷ []) reaction h
        → has_delivery h (
            forward_to_roster text_members none first_hex
              (104 ∷ [])
              reaction
              (first_hex ∷ second_hex ∷ []))
          ≡ true)
    × (length (
          forward_to_roster text_members none first_hex
            (104 ∷ [])
            reaction
            (first_hex ∷ second_hex ∷ []))
        ≤ 2)
forward_to_roster-IsAllowed_example =
    forward_to_roster-IsAllowed text_members none first_hex (104 ∷ []) reaction
      (first_hex ∷ second_hex ∷ [])
