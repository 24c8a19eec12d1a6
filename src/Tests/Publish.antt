-- ===== src/Tests/Publish.antt =====
-- Requests to a Kafka route.
use folksong.Prelude.{
  ℕ, zero, suc, ◌+◌, ◌≡◌, refl, true, false, some, none, [], ◌∷◌, ◌++◌, length, codes, arith,
  String, replicate,
}
use folksong.Arr.{Arr}
use folksong.Http.{Text, Req, Block, want_key}
use folksong.Publisher.{Pcre, Kafka, Publisher}
use folksong.Publisher.Request.{Done, find_param, url_of, done_cb}
use folksong.Publisher.Request.Topic.{Routed, done_cb-Routed}
use folksong.Publisher.Request.Param.{IsNamed, find_param-First}
use folksong.Arr.Search.{First, Filled}
use folksong.Publisher.Request.Response.{AnswersOnce, done_cb-AnswersOnce}
use folksong.Http.{null_block}
use folksong.Publisher.Request.Body.{collect, Collected, collect-joined}
use folksong.Str.{Str}
use folksong.Str.Prefix.{token_of}
use folksong.Tests.Fixtures.{word, plenty}

abbrev header : String → Text
header s = record {
  block = record { base = some (codes s ++ (0 ∷ [])); len = length (codes s) + 1 };
  size = length (codes s);
}

abbrev one : Text → Arr Text
one t = record { elems = some t ∷ []; ele_capa = 1; ele_count = 1; ele_size = 40 }

abbrev pub request : Req
request = record {
  url = header "/publish";
  p_key = one (header "Topic");
  p_val = one (header "logs");
  p_state = want_key;
  route = some 0;
}

-- a broker that takes every message, and a pattern that names nothing
abbrev pub broker : Kafka
broker = record {
  conf_set = λ _ _. true;
  new = true;
  topic_conf_new = true;
  topic_new = λ _. true;
  produce = λ _ _ _. true;
}

abbrev pub pcre : Pcre ℕ
pcre = record { compile = λ _. none; no_match = λ _ _. false; named = λ _ _ _. none }

abbrev pub no_items : Arr (Str × Str)
no_items = record { elems = replicate 2 none; ele_capa = 2; ele_count = 0; ele_size = 16 }

abbrev pub publisher : Publisher ℕ
publisher = record {
  path = word "/publish";
  path_re = none;
  topic_param = some (word "Topic");
  default_topic = none;
  key_param = none;
  default_key = none;
  conf = some no_items;
}

abbrev body : Block
body = record { base = some (codes "hi"); len = 2 }

abbrev sent : Done
sent = record { is_ok = true; responses = 200 ∷ []; sent = some (codes "logs", codes "hi", none) }

done_cb-sent : done_cb pcre broker publisher request body ≡ some sent
unfolding done_cb
done_cb-sent = refl

find_param-First_example :
    First
      (IsNamed (codes "Topic"))
      0
      (0 + 1)
      request.p_key
      (find_param 1 0 request.p_key (token_of (codes "Topic") []))
find_param-First_example =
    find_param-First 1 0 request.p_key (codes "Topic") ((header "Topic", refl, omega arith), tt)
      (omega arith)

key_there : Filled 0 1 request.p_key
key_there zero l m = λ e. cc
key_there (suc i) l m = absurd (omega arith)

val_there : Filled 0 1 request.p_val
val_there zero l m = λ e. cc
val_there (suc i) l m = absurd (omega arith)

done_cb-AnswersOnce_example : AnswersOnce (done_cb pcre broker publisher request body)
done_cb-AnswersOnce_example =
    done_cb-AnswersOnce pcre broker publisher no_items request body
      (record { keys = key_there; vals = val_there }) refl (λ i l m. absurd (omega arith))

collect-joined_example :
    (b : Block) × (collect plenty (codes "he" ∷ codes "llo" ∷ []) null_block ≡ some b)
    × Collected b (codes "hello")
collect-joined_example =
    collect-joined plenty (codes "he" ∷ codes "llo" ∷ []) (λ k. refl) (omega arith)

done_cb-Routed_example :
    Routed
      (pcre.named publisher.path_re (url_of request) (codes "topic"))
      (codes "Topic")
      ((codes "Topic", codes "logs") ∷ [])
      publisher.default_topic
      sent
done_cb-Routed_example =
    done_cb-Routed pcre broker publisher (codes "/publish") ((codes "Topic", codes "logs") ∷ [])
      request body (codes "Topic") sent
      (record { url = refl; keys = refl; vals = refl; key_count = refl; val_count = refl }) refl
      (omega arith) done_cb-sent
