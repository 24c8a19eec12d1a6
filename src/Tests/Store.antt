-- ===== src/Tests/Store.antt =====
-- Arrays, lists and the stack of blocks.
use folksong.Prelude.{ℕ, ◌≡◌, refl, some, none, List, [], ◌∷◌, arith}
use folksong.Arr.{Arr, push}
use folksong.Arr.Push.{PushSpec, push-PushSpec}
use folksong.Queue
use folksong.Queue.{Links, insert_after, remove, empty}
use folksong.Queue.Ring.{IsRing, init-IsRing, insert_after-IsRing}
use folksong.Run.{Run, Frame, Slot, st_push, st_pop, st_top}
use folksong.Run.Dangling.{Leaves, st_push-Leaves}
use folksong.Run.Stack.{IsStack, frames_at, st_push-PushSpec, st_pop-IsStack}
use folksong.Run.Stack
use folksong.Tests.Fixtures.{plenty, timer_cmd}

abbrev full : Arr ℕ
full = record { elems = some 7 ∷ []; ele_capa = 1; ele_count = 1; ele_size = 8 }

push-PushSpec_example : PushSpec plenty.malloc full (push plenty.malloc full)
push-PushSpec_example =
    push-PushSpec plenty.malloc {arr = full}
      (record {
        slots = refl;
        some_slot = omega arith;
        in_block = omega arith;
        sized = omega arith;
        countable = omega arith;
        addressable = omega arith;
      })
      (record { fits_int = omega arith; fits_size = omega arith })

abbrev no_links : Links
no_links = record { prev = λ _. 0; next = λ _. 0 }

abbrev one_node : Links
one_node = insert_after 5 6 (Queue.init 5 no_links)

one_node-IsRing : IsRing one_node 5 (6 ∷ [])
one_node-IsRing = insert_after-IsRing 6 [] (init-IsRing 5 no_links) ((λ e. omega arith), tt)

abbrev six : List ℕ
six = 6 ∷ []

abbrev no_frame : Frame
no_frame = record { module_nth = 0; cmd = timer_cmd; ctx = none }

-- a run whose context array is full, with nothing open
abbrev run : Run
run = record {
  ctx = full;
  block = 0;
  links = Queue.init 0 no_links;
  frames = λ _. no_frame;
  fresh = 1;
  st_depth = 0;
}

run-IsStack : IsStack run []
run-IsStack = record {
  ring = init-IsRing 0 no_links;
  below = tt;
  fresh_pos = omega arith;
  depth = refl;
}

st_push-PushSpec_example :
    Stack.PushSpec plenty.malloc run 3 timer_cmd [] (st_push plenty.malloc run 3 timer_cmd)
st_push-PushSpec_example =
    st_push-PushSpec plenty.malloc run 3 timer_cmd [] run-IsStack (omega arith)

-- the same run with one frame open, at address 1
abbrev open_run : Run
open_run = record run { links = insert_after 0 1 (Queue.init 0 no_links); fresh = 2; st_depth = 1 }

open_run-IsStack : IsStack open_run (1 ∷ [])
open_run-IsStack = record {
  ring = insert_after-IsRing 1 [] (init-IsRing 0 no_links) ((λ e. omega arith), tt);
  below = (omega arith, omega arith, tt);
  fresh_pos = omega arith;
  depth = refl;
}

st_pop-IsStack_example :
    IsStack (st_pop open_run) []
    × (frames_at (st_pop open_run) [] ≡ frames_at open_run [])
    × (st_top open_run ≡ no_frame)
st_pop-IsStack_example = st_pop-IsStack open_run 1 [] open_run-IsStack (omega arith)

abbrev first_slot : Slot
first_slot = record { block = 0; index = 0 }

st_push-Leaves_example : Leaves run first_slot (st_push plenty.malloc run 3 timer_cmd)
st_push-Leaves_example =
    st_push-Leaves plenty.malloc run 3 timer_cmd first_slot (λ k. refl) (omega arith)
