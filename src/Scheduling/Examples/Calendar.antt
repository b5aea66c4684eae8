-- ===== src/Scheduling/Examples/Calendar.antt =====
-- The identity of calendar events at concrete inputs.
use field_service_management.Base.{◌<◌, ◌≡◌, ◌^◌, ◌⊎◌, refl, none, some, [], ◌∷◌, ◌++◌, map, arith}
use field_service_management.Base.Text.{Text, codes}
use field_service_management.Base.Uuid.{
  fold_case, hex_digit, drop_digits, hex_run, hex_value, read_hex, uuid_text,
}
use field_service_management.Scheduling.CalendarIdentity.{build_ical_uid, parse_ical_uid}
use field_service_management.Scheduling.CalendarIdentity.Parse.{
  parse_ical_uid-build_ical_uid, build_ical_uid-parse_ical_uid,
}

-- In upper case, and with a newline at the end.
abbrev shouted : Text
shouted = codes "FSM-00000000-0000-0000-0000-0000000000AF@fsm.local\n"

built : build_ical_uid 175 ≡ codes "fsm-00000000-0000-0000-0000-0000000000af@fsm.local"
unfolding build_ical_uid uuid_text hex_run drop_digits hex_digit
built = refl

shouted_run : parse_ical_uid shouted ≡ some 175
unfolding parse_ical_uid read_hex hex_value fold_case
shouted_run = refl

foreign_run : parse_ical_uid (codes "af@google.com") ≡ none
unfolding parse_ical_uid read_hex hex_value fold_case
foreign_run = refl

parse_ical_uid-build_ical_uid_example : parse_ical_uid (build_ical_uid 175) ≡ some 175
parse_ical_uid-build_ical_uid_example = parse_ical_uid-build_ical_uid 175 (omega arith)

build_ical_uid-parse_ical_uid_example :
    (175 < 2 ^ 128)
    × ((map fold_case shouted ≡ build_ical_uid 175)
        ⊎ (map fold_case shouted ≡ build_ical_uid 175 ++ b'\n' ∷ []))
build_ical_uid-parse_ical_uid_example = build_ical_uid-parse_ical_uid 175 shouted shouted_run
