-- ===== src/Tests/Statements.antt =====
-- Statements in front of a module with one block.
use folksong.Prelude.{
  codes, ◌≢◌, inl, inr, ℕ, suc, ◌≡◌, refl, false, some, none, [], ◌∷◌, Option, arith,
}
use folksong.Arr.{Arr}
use folksong.Cmd.{single_cmd}
use folksong.Conf.{Conf, Mod, null}
use folksong.Conf.Handle.{Handled, handled, fault, handle}
use folksong.Conf.Stack.{Leaves}
use folksong.Conf.Stack.Statement.{Statement, handle-Statement}
use folksong.Conf.Unknown.{plain, handle-Unknown}
use folksong.Conf.Parse.{parse, parse_cmdline, out_of_fuel}
use folksong.Conf.Parse.Ends.{parse-ne-out_of_fuel, parse_cmdline-ne-out_of_fuel}
use folksong.Os.{Os}
use folksong.Queue
use folksong.Queue.Ring.{init-IsRing}
use folksong.Tests.Fixtures.{plenty, in_memory, word, timer_cmd}
use folksong.Str.{literal, str_cmp}
use folksong.Token.{ok, error, block_start}

-- a module that takes the block and counts the calls of its handler
abbrev pub timers : Mod ℕ
timers = record {
  commands = timer_cmd ∷ single_cmd [] 0 ∷ [];
  init_mod = none;
  completed = none;
  call = λ call c ctx. (ok, suc c.world);
  inited = λ c ctxs. c.world;
}

abbrev pub conf : Conf ℕ
conf = record {
  source = record {
    tokens = record {
      elems = some (word "timer") ∷ [];
      ele_capa = 1;
      ele_count = 1;
      ele_size = 16;
    };
    file = (in_memory []).file;
  };
  run = record {
    ctx = record { elems = none ∷ []; ele_capa = 1; ele_count = 0; ele_size = 8 };
    block = 0;
    links = Queue.init 0 (record { prev = λ _. 0; next = λ _. 0 });
    frames = λ _. record { module_nth = 0; cmd = timer_cmd; ctx = none };
    fresh = 1;
    st_depth = 0;
  };
  mods = record { used = false; ctxs = null } ∷ [];
  world = 0;
}

handle-Statement_example :
    Leaves (Statement block_start []) (handle plenty (timers ∷ []) block_start conf)
handle-Statement_example =
    handle-Statement plenty (timers ∷ []) block_start conf []
      (record {
        ring = init-IsRing 0 (record { prev = λ _. 0; next = λ _. 0 });
        below = tt;
        fresh_pos = omega arith;
        depth = refl;
      })
      (omega arith)

calls : Handled ℕ → Option ℕ
calls (handled r c) = some c.world
calls fault = none

-- the handler was called once
handle-calls : calls (handle plenty (timers ∷ []) block_start conf) ≡ some 1
unfolding calls handle str_cmp folksong.Arr.alloc
handle-calls = refl

-- a parameter that the module does not have
abbrev unknown : Conf ℕ
unknown = record conf {
  source = record conf.source {
    tokens = record conf.source.tokens { elems = some (word "zoom") ∷ [] };
  };
}

handle-Unknown_example : handle plenty (timers ∷ []) ok unknown ≡ handled error unknown
handle-Unknown_example = handle-Unknown plenty (timers ∷ []) plain unknown (codes "zoom") [] refl (
  (
    codes "timer",
    refl,
    omega arith,
    inr ((λ e. cc), inl (λ e. omega (arith, e.0)), ([], refl, tt, inl refl)),
  ),
  tt,
)

-- a file of eight bytes
abbrev disk : Os
disk = record plenty { st_size = 8; read = λ n off. some (codes "timer {}") }

parse-ne-out_of_fuel_example :
    parse disk (timers ∷ []) 9 conf (some (word "folksong.conf")) ≢ out_of_fuel
parse-ne-out_of_fuel_example =
    parse-ne-out_of_fuel disk (timers ∷ []) 9 conf (word "folksong.conf") (omega arith)

parse_cmdline-ne-out_of_fuel_example :
    parse_cmdline plenty (timers ∷ []) 9 conf (literal (codes "timer {}")) ≢ out_of_fuel
parse_cmdline-ne-out_of_fuel_example =
    parse_cmdline-ne-out_of_fuel plenty (timers ∷ []) 9 conf (literal (codes "timer {}"))
      (omega arith)
