-- ===== src/Memory/Sessions.antt =====
-- What the long and short term memory holds after any messages and ends of sessions.
use you_mi_agent.Prelude.{ℕ, zero, suc, sym, ◌∙◌, ap, arith, ◌≡◌, refl, List, [], ◌∷◌, ◌++◌, Option}
use you_mi_agent.Text.{Text}
use you_mi_agent.Memory.{Message, drop, slice_last}
use you_mi_agent.Memory.Lstm.{
  LstmMemoryStrategy, init, MemoryType, is_long_term, is_short_term, classify, store_as, on_message,
  clear, clear_all, on_session_end,
}
use you_mi_agent.Memory.Windows.{append_bounded-slice_last}

pub data Op : Type 0 where
  op_message : Message → Op
  op_clear op_clear_all op_session_end : Op

unfoldable pub step : Op → LstmMemoryStrategy → LstmMemoryStrategy
unfolding on_message clear clear_all on_session_end
step (op_message m) s = on_message m s
step op_clear s = clear s
step op_clear_all s = clear_all s
step op_session_end s = on_session_end s

unfoldable pub run : List Op → LstmMemoryStrategy → LstmMemoryStrategy
unfolding step
run [] s = s
run (op ∷ ops) s = run ops (step op s)

onto : MemoryType → MemoryType → Message → List Message → List Message
onto is_long_term is_long_term m ms = ms ++ (m ∷ [])
onto is_short_term is_short_term m ms = ms ++ (m ∷ [])
onto _ _ m ms = ms

-- The messages of a kind, oldest first, since they were last cleared: `ms` are those before.
unfoldable pub long_messages : (Text → MemoryType) → List Op → List Message → List Message
unfolding onto
long_messages kind [] ms = ms
long_messages kind (op_message m ∷ ops) ms =
    long_messages kind ops (onto is_long_term (kind m.content) m ms)
long_messages kind (op_clear ∷ ops) ms = long_messages kind ops ms
long_messages kind (op_clear_all ∷ ops) ms = long_messages kind ops []
long_messages kind (op_session_end ∷ ops) ms = long_messages kind ops ms

unfoldable pub short_messages : (Text → MemoryType) → List Op → List Message → List Message
unfolding onto
short_messages kind [] ms = ms
short_messages kind (op_message m ∷ ops) ms =
    short_messages kind ops (onto is_short_term (kind m.content) m ms)
short_messages kind (op_clear ∷ ops) ms = short_messages kind ops []
short_messages kind (op_clear_all ∷ ops) ms = short_messages kind ops []
short_messages kind (op_session_end ∷ ops) ms = short_messages kind ops []

kind_of : LstmMemoryStrategy → Text → MemoryType
kind_of s = classify s.keywords s.llm_call

-- The strategy that remembers of `longs` and `shorts` what its limits leave.
remembering : LstmMemoryStrategy → List Message → List Message → LstmMemoryStrategy
remembering s longs shorts = record s {
  long_term = slice_last s.max_long_term longs;
  short_term = slice_last s.max_short_term shorts;
}

slice_last-nil : (n : ℕ) → slice_last {A = Message} n [] ≡ []
unfolding slice_last drop
slice_last-nil zero = ground arith
slice_last-nil (suc n) = ground arith

store_as-remembering :
    (k : MemoryType) (m : Message) (s : LstmMemoryStrategy) (longs shorts : List Message)
    → store_as k m (remembering s longs shorts)
      ≡ remembering s (onto is_long_term k m longs) (onto is_short_term k m shorts)
unfolding store_as remembering onto
store_as-remembering is_long_term m s longs shorts =
    ap (λ l. record s { long_term = l; short_term = slice_last s.max_short_term shorts })
      (append_bounded-slice_last s.max_long_term m longs)
store_as-remembering is_short_term m s longs shorts =
    ap (λ l. record s { long_term = slice_last s.max_long_term longs; short_term = l })
      (append_bounded-slice_last s.max_short_term m shorts)

forgets_shorts :
    (s : LstmMemoryStrategy) (longs shorts : List Message)
    → clear (remembering s longs shorts) ≡ remembering s longs []
unfolding clear remembering
forgets_shorts s longs shorts =
    ap (λ l. record s { long_term = slice_last s.max_long_term longs; short_term = l })
      (sym (slice_last-nil s.max_short_term))

forgets_all :
    (s : LstmMemoryStrategy) (longs shorts : List Message)
    → clear_all (remembering s longs shorts) ≡ remembering s [] []
unfolding clear_all remembering
forgets_all s longs shorts =
    ap (λ l. record s { long_term = l; short_term = [] }) (sym (slice_last-nil s.max_long_term))
    ∙ ap (λ l. record s { long_term = slice_last s.max_long_term []; short_term = l })
        (sym (slice_last-nil s.max_short_term))

run-remembering :
    (ops : List Op) (s : LstmMemoryStrategy) (longs shorts : List Message)
    → run ops (remembering s longs shorts)
      ≡ remembering s (long_messages (kind_of s) ops longs) (short_messages (kind_of s) ops shorts)
unfolding run step long_messages short_messages on_message on_session_end clear kind_of remembering
run-remembering [] s longs shorts = refl
run-remembering (op_message m ∷ ops) s longs shorts =
    let k = kind_of s m.content in
    ap (run ops) (store_as-remembering k m s longs shorts)
    ∙ run-remembering ops s (onto is_long_term k m longs) (onto is_short_term k m shorts)
run-remembering (op_clear ∷ ops) s longs shorts =
    ap (run ops) (forgets_shorts s longs shorts) ∙ run-remembering ops s longs []
run-remembering (op_clear_all ∷ ops) s longs shorts =
    ap (run ops) (forgets_all s longs shorts) ∙ run-remembering ops s [] []
run-remembering (op_session_end ∷ ops) s longs shorts =
    ap (run ops) (forgets_shorts s longs shorts) ∙ run-remembering ops s longs []

-- After any history of a new strategy: the long term memory is the last `max_long_term` of the
-- messages that were classified as long term since `clear_all`, and the short term memory the last
-- `max_short_term` of the others since the session's end or a `clear`; a limit of 0 keeps them all.
pub memories_are_last :
    (keywords : List Text) (max_short max_long : ℕ) (llm : Option (Text → Option Text))
    → (ops : List Op)
    → ((run ops (init keywords max_short max_long llm)).long_term
        ≡ slice_last max_long (long_messages (classify keywords llm) ops []))
      × ((run ops (init keywords max_short max_long llm)).short_term
          ≡ slice_last max_short (short_messages (classify keywords llm) ops []))
unfolding init remembering kind_of
memories_are_last keywords max_short max_long llm ops =
    let s = init keywords max_short max_long llm in
    let fresh : remembering s [] [] ≡ s =
      ap (λ l. record s { long_term = l; short_term = slice_last max_short [] })
        (slice_last-nil max_long)
      ∙ ap (λ l. record s { long_term = []; short_term = l }) (slice_last-nil max_short) in
    let reached = ap (run ops) (sym fresh) ∙ run-remembering ops s [] [] in
    (ap (λ t. t.long_term) reached, ap (λ t. t.short_term) reached)
