-- ===== src/Format/Validate/Tests.antt =====
-- A run of the validation, and its theorem at a concrete Pack.
use lorelum.Prelude.{
  ◌≡◌, refl, ◌↔◌, [], ◌∷◌, units, some, none, true, text_eq, contains, get, put, add, keep, all,
}
use lorelum.Format.Cycle.{detect_cycles}
use lorelum.Format.Validate.{
  Practice, PackInput, Report, error, duplicate_id, dangling_ref, cycle, issue, practice_id,
  recommend, decisions, validate_parsed_pack,
}
use lorelum.Format.Validate.Rules.{IsWellFormed, validate_parsed_pack_decides}

abbrev layered : Practice
layered = record {
  id = units "layered";
  title = units "Layers";
  applies_when = units "always";
  severity = none;
  body = some (units "  ");
}

-- One practice twice, a missing recommendation, and a decision that goes on at itself.
abbrev faulty_pack : PackInput
faulty_pack = record {
  depends_on = none;
  practices = layered ∷ layered ∷ [];
  decisions =
      record {
        id = units "d";
        branches = record { recommend = units "gone" ∷ []; next = some (units "d") } ∷ [];
      }
      ∷ [];
}

faulty_pack_errors :
    (r : Report) × (validate_parsed_pack faulty_pack ≡ some r)
    × (r.errors
        ≡ issue error duplicate_id (practice_id 1)
          ∷ issue error dangling_ref (recommend 0 0)
          ∷ issue error cycle decisions
          ∷ [])
unfolding validate_parsed_pack detect_cycles text_eq contains get put add keep all
faulty_pack_errors = (_, refl, refl)

validate_parsed_pack_decides_example :
    (r : Report) × (validate_parsed_pack faulty_pack ≡ some r)
    × ((r.valid ≡ true) ↔ IsWellFormed faulty_pack)
validate_parsed_pack_decides_example = validate_parsed_pack_decides faulty_pack
