-- ===== src/Memory/Lstm.antt =====
-- `LSTMMemoryStrategy` of youmi/memory/strategies/lstm.py. The LLM is a function from the content to
-- its reply, `none` where the prompt or the call raises an exception.
use you_mi_agent.Prelude.{ℕ, Option, none, some, List, [], ◌∷◌, ◌++◌, any, if◌then◌else◌}
use you_mi_agent.Text.{Text, codes, strip, lower, is_within}
use you_mi_agent.Memory.{Message, append_bounded, context_slice}

pub record LstmMemoryStrategy : Type 0 where
  pub keywords : List Text
  pub max_short_term : ℕ
  pub max_long_term : ℕ
  pub llm_call : Option (Text → Option Text)
  pub short_term : List Message
  pub long_term : List Message

unfoldable pub init : List Text → ℕ → ℕ → Option (Text → Option Text) → LstmMemoryStrategy
init keywords max_short_term max_long_term llm_call = record {
  keywords = keywords;
  max_short_term = max_short_term;
  max_long_term = max_long_term;
  llm_call = llm_call;
  short_term = [];
  long_term = [];
}

-- The two answers of `_classify`.
pub data MemoryType : Type 0 where
  is_long_term is_short_term : MemoryType

unfoldable pub by_keywords : List Text → Text → MemoryType
unfolding lower is_within
by_keywords keywords content =
    if any (λ keyword. is_within (lower keyword) (lower content)) keywords
    then is_long_term
    else is_short_term

unfoldable pub by_reply : Text → MemoryType
unfolding lower is_within strip
by_reply reply =
    if is_within (codes "long_term") (lower (strip reply)) then is_long_term else is_short_term

unfoldable pub by_llm : List Text → Text → Option Text → MemoryType
unfolding by_keywords by_reply
by_llm keywords content none = by_keywords keywords content
by_llm keywords content (some reply) = by_reply reply

unfoldable pub classify : List Text → Option (Text → Option Text) → Text → MemoryType
unfolding by_keywords by_llm
classify keywords none content = by_keywords keywords content
classify keywords (some call) content = by_llm keywords content (call content)

unfoldable pub store_as : MemoryType → Message → LstmMemoryStrategy → LstmMemoryStrategy
unfolding append_bounded
store_as is_long_term m s = record s { long_term = append_bounded s.max_long_term m s.long_term }
store_as is_short_term m s = record s {
  short_term = append_bounded s.max_short_term m s.short_term;
}

unfoldable pub on_message : Message → LstmMemoryStrategy → LstmMemoryStrategy
unfolding classify store_as
on_message m s = store_as (classify s.keywords s.llm_call m.content) m s

-- `"\n".join(f"- {e['content']}" for e in entries)`
unfoldable pub bullets : List Message → Text
bullets [] = []
bullets (m ∷ []) = codes "- " ++ m.content
bullets (m ∷ n ∷ ms) = codes "- " ++ m.content ++ (b'\n' ∷ bullets (n ∷ ms))

unfoldable pub long_context : Option ℕ → List Message → List Message
unfolding context_slice bullets
long_context limit [] = []
long_context limit (m ∷ ms) =
    record {
      role = codes "system";
      content = codes "[长期记忆 — 跨会话保留的关键信息]" ++ (b'\n' ∷ bullets (context_slice limit (m ∷ ms)));
    }
    ∷ []

unfoldable pub get_context : Option ℕ → Option ℕ → LstmMemoryStrategy → List Message
unfolding context_slice long_context
get_context long_limit short_limit s =
    long_context long_limit s.long_term ++ context_slice short_limit s.short_term

unfoldable pub clear : LstmMemoryStrategy → LstmMemoryStrategy
clear s = record s { short_term = [] }

unfoldable pub clear_all : LstmMemoryStrategy → LstmMemoryStrategy
clear_all s = record s { short_term = []; long_term = [] }

unfoldable pub on_session_end : LstmMemoryStrategy → LstmMemoryStrategy
on_session_end s = record s { short_term = [] }
