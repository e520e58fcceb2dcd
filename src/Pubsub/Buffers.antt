-- ===== src/Pubsub/Buffers.antt =====
-- `_pubsub_receive_loop` and `get_pubsub_messages`: a buffer for each topic, of 100 messages at most.
use py_ipfs_lite.Prelude.{
  ℕ, ◌+◌, ◌-◌, String, none, some, List, [], ◌∷◌, ◌++◌, string_eq, length, drop,
}
use py_ipfs_lite.Dict.{get, put}
use py_ipfs_lite.Pubsub.Topics.{Message, Topics}

abbrev pub maxlen : ℕ
maxlen = 100

-- `append` of a deque with a maxlen drops the oldest messages.
abbrev pub append : Message → List Message → List Message
append m buffer = drop (length buffer + 1 - maxlen) (buffer ++ (m ∷ []))

abbrev pub buffer_of : String → Topics → List Message
buffer_of topic s = elim (get topic s.messages) [ none ↦ [] | some b ↦ b ]

-- The start of the loop: setdefault.
abbrev pub start_loop : String → Topics → Topics
start_loop topic s = record s { messages = put topic (buffer_of topic s) s.messages }

-- The loop keeps the buffer object that it has found, so a message counts while that buffer is in the
-- dictionary.
unfoldable pub receive : String → Message → Topics → Topics
receive topic m s = elim (get topic s.messages) [
  | none ↦ s
  | some buffer ↦ record s { messages = put topic (append m buffer) s.messages }
]

-- `get_pubsub_messages`
unfoldable pub take_messages : String → Topics → List Message × Topics
take_messages topic s = elim (get topic s.messages) [
  | none ↦ ([], s)
  | some buffer ↦ (buffer, record s { messages = put topic [] s.messages })
]
