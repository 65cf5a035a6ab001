-- ===== src/Config/Defaults.antt =====
-- ResolvedConfig.Finalize, the defaults of what nobody has set.
use devcontainer.Base.{◌==◌, ◌≡◌, arith}
use devcontainer.Config.Types.{ResolvedConfig, finalize}

-- Setting the defaults a second time changes nothing.
finalize_twice : (c : ResolvedConfig) → finalize (finalize c) ≡ finalize c
unfolding finalize ◌==◌
finalize_twice c = ground arith
