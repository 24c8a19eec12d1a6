-- ===== src/Queue.antt =====
-- core/fs_queue.h: circular doubly linked lists threaded through their owners. A node is known by
-- the address of its link field, and the two pointers of all nodes are two functions.
pub mod Ring
use folksong.Prelude.{ℕ, Bool, ◌==◌, if◌then◌else◌}

pub record Links : Type 0 where
  pub prev : ℕ → ℕ
  pub next : ℕ → ℕ

abbrev pub update : (ℕ → ℕ) → ℕ → ℕ → ℕ → ℕ
update f p v q = if q == p then v else f q

-- `p->prev = v` and `p->next = v`
abbrev pub set_prev : ℕ → ℕ → Links → Links
set_prev p v s = record s { prev = update s.prev p v }

abbrev pub set_next : ℕ → ℕ → Links → Links
set_next p v s = record s { next = update s.next p v }

unfoldable pub init : ℕ → Links → Links
init q s = set_next q q (set_prev q q s)

unfoldable pub empty : ℕ → Links → Bool
empty q s = s.next q == q

-- `q->next->prev = q` reads the `next` that the line before it wrote.
unfoldable pub insert_after : ℕ → ℕ → Links → Links
insert_after h q s =
    let s1 = set_next q (s.next h) s in
    let s2 = set_prev (s1.next q) q s1 in let s3 = set_prev q h s2 in set_next h q s3

unfoldable pub insert_before : ℕ → ℕ → Links → Links
insert_before h q s =
    let s1 = set_prev q (s.prev h) s in
    let s2 = set_next (s1.prev q) q s1 in let s3 = set_next q h s2 in set_prev h q s3

unfoldable pub remove : ℕ → Links → Links
remove q s = let s1 = set_prev (s.next q) (s.prev q) s in set_next (s1.prev q) (s1.next q) s1
