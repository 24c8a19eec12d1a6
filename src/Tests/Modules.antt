-- ===== src/Tests/Modules.antt =====
-- The modules' operations on concrete statements and requests.
use folksong.Prelude.{◌≡◌, refl, some, arith}
use folksong.Args.{Args, build}
use folksong.Args.Overrun.{Overruns, build-Overruns}
use folksong.Tests.Fixtures.{plenty, three_tokens}

build-Overruns_example :
    (a : Args) × (build plenty.malloc three_tokens ≡ some a) × Overruns three_tokens a
build-Overruns_example =
    build-Overruns plenty.malloc three_tokens (λ k. refl) (omega arith) (omega arith)
      ((λ e. cc), ((λ e. cc), tt))
