-- ===== src/Tests/Listener.antt =====
-- A Kafka listener with one topic.
use folksong.Prelude.{◌≡◌, refl, ◌+◌, true, none, some, [], ◌∷◌, ◌++◌, codes, arith}
use folksong.Args.{build}
use folksong.Arr.{Arr}
use folksong.Arr.Search.{First}
use folksong.Listener.{Consumer, Topic, Listener}
use folksong.Listener.Config.{init_mod_completed}
use folksong.Listener.Config.Complete.{AnswersOkWhen, IsComplete, init_mod_completed-IsComplete}
use folksong.Listener.Poll.{Message, Uv, find_topic, hand_over}
use folksong.Listener.Poll.Dispatch.{StartsWith, find_topic-First}
use folksong.Listener.Poll.Unset.{hand_over-exec}
use folksong.Listener.Proc.{
  launched, callbacks, writed, exited, Outcome, WritesFirst, writes, callbacks-Outcome,
}
use folksong.Str.Prefix.{NoNul}
use folksong.Tests.Fixtures.{plenty, word, three_tokens}

abbrev consumer : Consumer
consumer = record { conf_set = λ _ _. true; new = true; subscribe = λ _. true }

abbrev logs : Topic
logs = record { topic = word "logs"; args = build plenty.malloc three_tokens; proc_flag = true }

abbrev topics : Arr Topic
topics = record { elems = some logs ∷ []; ele_capa = 1; ele_count = 1; ele_size = 128 }

abbrev listener : Listener
listener = record { topics = some topics; rk = true; looped = true }

init_mod_completed-IsComplete_example :
    AnswersOkWhen
      ((true ≡ true) × IsComplete consumer (logs ∷ []))
      (init_mod_completed consumer listener)
init_mod_completed-IsComplete_example =
    init_mod_completed-IsComplete consumer listener (logs ∷ []) (refl, (refl, tt))

logs-NoNul : NoNul (codes "logs")
logs-NoNul = ((λ e. cc), ((λ e. cc), ((λ e. cc), ((λ e. cc), tt))))

find_topic-First_example :
    First
      (StartsWith (codes "log"))
      0
      (0 + 1)
      topics
      (find_topic (codes "log" ++ (115 ∷ [])) topics)
find_topic-First_example =
    find_topic-First topics (codes "log") 115 ((logs, codes "logs", [], refl, refl, logs-NoNul), tt)
      ((λ e. cc), ((λ e. cc), ((λ e. cc), tt))) (λ e. cc) (omega arith)

abbrev message : Message
message = record { is_ok = true; topic = codes "logs"; key = codes "k"; payload = codes "hi" }

abbrev uv : Uv
uv = record { spawn = λ _. true; write = λ _. true }

hand_over-exec_example : hand_over plenty.malloc uv listener message logs ≡ none
hand_over-exec_example =
    hand_over-exec plenty.malloc uv listener message three_tokens logs (λ k. refl) (omega arith)
      (omega arith) ((λ e. cc), ((λ e. cc), tt)) refl refl

callbacks-Outcome_example :
    Outcome
      (writes (exited ∷ writed ∷ []))
      (WritesFirst (exited ∷ writed ∷ []))
      (callbacks (exited ∷ writed ∷ []) launched)
callbacks-Outcome_example = callbacks-Outcome (exited ∷ writed ∷ [])
