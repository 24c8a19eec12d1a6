-- ===== src/Token.antt =====
-- `fs_conf_next_token` of core/fs_conf.c: the lexer of the configuration language.
use folksong.Prelude.{ℕ, ◌-◌, Bool, true, false, ◌&&◌, ◌||◌, ◌==◌, if◌then◌else◌}

-- the codes of core/fs_conf.h
pub data Ret : Type 0 where
  ok error file_done_ret pass block_start block_end : Ret

abbrev pub is_ok : Ret → Bool
is_ok ok = true
is_ok _ = false

abbrev pub is_pass : Ret → Bool
is_pass pass = true
is_pass _ = false

abbrev pub is_block_start : Ret → Bool
is_block_start block_start = true
is_block_start _ = false

-- the locals of the loop; `token_start` is an offset into the block
pub record Scan : Type 0 where
  pub sharp : Bool
  pub quoted : Bool
  pub d_quote : Bool
  pub s_quote : Bool
  pub vacancy : Bool
  pub need_space : Bool
  pub variable : Bool
  pub token_start : ℕ

abbrev pub start : Scan
start = record {
  sharp = false;
  quoted = false;
  d_quote = false;
  s_quote = false;
  vacancy = true;
  need_space = false;
  variable = false;
  token_start = 0;
}

-- what one byte makes of the state: go on, leave the function, or store a token first
pub data Verdict : Type 0 where
  go : Scan → Verdict
  leave : Ret → Verdict
  store : Scan → Verdict

unfoldable pub is_blank : ℕ → Bool
is_blank c = c == b'\r' || c == b' ' || c == b'\n' || c == b'\t'

-- `if (vacancy)`; `pos` is the offset behind the byte
unfoldable pub step_vacancy : Scan → ℕ → ℕ → Verdict
unfolding is_blank
step_vacancy s pos c =
    if is_blank c
    then go s
    else if c == b';'
    then leave ok
    else if c == b'{'
    then leave block_start
    else if c == b'}'
    then leave block_end
    else if c == b'#'
    then go (record s { sharp = true })
    else if c == b'\\'
    then go (record s { token_start = pos; vacancy = false; quoted = true })
    else if c == b'"'
    then go (record s { token_start = pos; d_quote = true; vacancy = false })
    else if c == b'\''
    then go (record s { token_start = pos; s_quote = true; vacancy = false })
    else if c == b'$'
    then go (record s { token_start = pos - 1; variable = true; vacancy = false })
    else go (record s { token_start = pos - 1; vacancy = false })

-- `else`: inside a word, with `variable` reset
unfoldable pub step_word : Scan → ℕ → Verdict
unfolding is_blank
step_word s c =
    if c == b'\\'
    then go (record s { quoted = true })
    else if c == b'$'
    then go (record s { variable = true })
    else if s.d_quote
    then (if c == b'"' then store (record s { d_quote = false; need_space = true }) else go s)
    else if s.s_quote
    then (if c == b'\'' then store (record s { s_quote = false; need_space = true }) else go s)
    else if is_blank c || c == b';' || c == b'{'
    then store (record s { vacancy = true })
    else go s

unfoldable pub step_text : Scan → ℕ → ℕ → Verdict
unfolding step_vacancy step_word
step_text s pos c =
    if s.vacancy
    then step_vacancy s pos c
    else if c == b'{' && s.variable
    then go s
    else step_word (record s { variable = false }) c

-- one round, behind the read of the byte
unfoldable pub step : Scan → ℕ → ℕ → Verdict
unfolding step_text is_blank
step s0 pos c =
    let s = if c == b'\n' then record s0 { sharp = false } else s0 in
    if s.sharp
    then go s
    else if s.quoted
    then go (record s { quoted = false })
    else if s.need_space
    then (if is_blank c
        then go (record s { vacancy = true; need_space = false })
        else if c == b';'
        then leave ok
        else if c == b'{'
        then leave block_start
        else step_text s pos c)
    else step_text s pos c
