-- ===== src/Tests/Booting.antt =====
-- Boots in production.
use go_commerce.Base.{◌≡◌, refl, true, Bool, Option, none, [], if◌then◌else◌, inl}
use go_commerce.Base.Int.{ℤ, pos}
use go_commerce.Base.Text.{Text, codes, text_eq, trim_space}
use go_commerce.Config.{
  Config, Environment, env_text, env_int, env_list, is_production, harden, read_config, checked,
  load,
}
use go_commerce.Config.Hardened.{Hardened, production_hardens, production_needs_secrets}

abbrev production : Environment
unfolding text_eq
production key =
    if text_eq key (codes "APP_ENV")
    then codes "production"
    else if text_eq key (codes "JWT_SECRET")
    then codes "a-long-enough-secret"
    else if text_eq key (codes "CORS_ORIGINS")
    then codes "https://shop.example"
    else []

abbrev with_key : Environment
unfolding text_eq
with_key key = if text_eq key (codes "API_KEY") then codes "k3y" else production key

abbrev no_duration : Text → Option ℤ
no_duration t = none

abbrev any_valid : Config → Bool
any_valid c = true

abbrev settings : Config
unfolding text_eq trim_space
settings = record (read_config no_duration any_valid with_key) { bcrypt_cost = pos 12 }

production_hardens_example : Hardened settings
unfolding load read_config checked is_production harden text_eq env_text env_int env_list trim_space
production_hardens_example = production_hardens no_duration any_valid with_key settings refl refl

production_needs_secrets_example : load no_duration any_valid production ≡ none
unfolding text_eq
production_needs_secrets_example =
    production_needs_secrets no_duration any_valid production refl (inl refl)
