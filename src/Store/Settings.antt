-- ===== src/Store/Settings.antt =====
-- internal/store/store.go: the application's settings.
use text.Mathlib.Text.{starts_with}
use shclop.Prelude.{String, Bool, ◌||◌, Option, none, some, ◌==◌}
use shclop.Prelude.Lists.{select}
use shclop.Prelude.Dict.{Dict, lookup, insert}
use shclop.Store.Memory.{ok, Call, Method, with_ctx}

-- A Go map gives the zero value of its element type for a key that is not there.
abbrev pub or_empty : Option String → String
or_empty none = ""
or_empty (some v) = v

unfoldable pub get_app_setting : Call → String → Method String
get_app_setting c key = with_ctx c λ m. (ok (or_empty (lookup key m.app_settings)), m)

unfoldable pub set_app_setting : Call → String → String → Method (Unit {0})
set_app_setting c key value =
    with_ctx c λ m. (ok tt, record m { app_settings = insert key value m.app_settings })

abbrev pub has_prefix : String → String × String → Bool
has_prefix prefix e = prefix == "" || starts_with e.0 prefix

unfoldable pub list_app_settings : Call → String → Method (Dict String)
list_app_settings c prefix = with_ctx c λ m. (ok (select (has_prefix prefix) m.app_settings), m)
