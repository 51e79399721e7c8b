-- ===== src/Tests/Logged.antt =====
-- What the program logs at its start (cmd/gateway/main.go).
use mathlib.Core.Quot
use renku_gateway.Prelude.{String, ◌≡◌, refl}
use renku_gateway.Config.{Config}
use renku_gateway.Config.Redacted.{Printing, password, logged, logged-PublicConfig}
use renku_gateway.Tests.Configs.{config}

abbrev printing : Printing
printing = record { itoa = λ n. "n"; json = λ c. c.redis.password }

abbrev with_password : String → Config
with_password s = record config { redis = record config.redis { password = s } }

logged-PublicConfig_example :
    logged printing (with_password "hunter2") ≡ logged printing (with_password "letmein")
logged-PublicConfig_example =
    logged-PublicConfig printing (with_password "hunter2") (with_password "letmein")
      (Quot.sound (password config "hunter2" "letmein" refl))
