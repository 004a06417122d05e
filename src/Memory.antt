-- ===== src/Memory.antt =====
-- youmi/memory/strategies/full.py, and the messages that the strategies of youmi/memory share;
-- Memory/Lstm is youmi/memory/strategies/lstm.py. `search` and `snapshot`, which read the state, are
-- left out.
pub mod Lstm
pub mod Windows
pub mod Sessions
pub mod Examples
use you_mi_agent.Prelude.{
  ℕ, zero, suc, ◌-◌, Option, none, some, List, [], ◌∷◌, ◌++◌, length, ltb, ◌==◌, if◌then◌else◌,
}
use you_mi_agent.Text.{Text}

pub record Message : Type 0 where
  pub role : Text
  pub content : Text

unfoldable pub drop {ℓ} : {A : Type ℓ} → ℕ → List A → List A
drop zero xs = xs
drop (suc n) [] = []
drop (suc n) (x ∷ xs) = drop n xs

-- `xs[-n:]`, which is the whole list at 0
unfoldable pub slice_last {ℓ} : {A : Type ℓ} → ℕ → List A → List A
unfolding drop
slice_last n xs = if n == 0 then xs else drop (length xs - n) xs

-- `append`, and the cut to the last `limit` messages
unfoldable pub append_bounded : ℕ → Message → List Message → List Message
unfolding slice_last
append_bounded limit m ms =
    let all = ms ++ (m ∷ []) in if ltb limit (length all) then slice_last limit all else all

-- `messages[-limit:]`, where `limit` may be left out
unfoldable pub context_slice : Option ℕ → List Message → List Message
unfolding slice_last
context_slice none ms = slice_last (length ms) ms
context_slice (some limit) ms = slice_last limit ms

pub record FullMemoryStrategy : Type 0 where
  pub max_messages : ℕ
  pub messages : List Message

unfoldable pub on_message : Message → FullMemoryStrategy → FullMemoryStrategy
unfolding append_bounded
on_message m s = record s { messages = append_bounded s.max_messages m s.messages }

unfoldable pub get_context : Option ℕ → FullMemoryStrategy → List Message
unfolding context_slice
get_context limit s = context_slice limit s.messages

unfoldable pub clear : FullMemoryStrategy → FullMemoryStrategy
clear s = record s { messages = [] }
