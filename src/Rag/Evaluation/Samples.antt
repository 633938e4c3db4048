-- ===== src/Rag/Evaluation/Samples.antt =====
-- Numbers and letters for the tests of evaluations.
use ai_agent_hub.Common.{ℕ, ◌+◌, ◌*◌, ◌/◌, leb, ◌&&◌, ◌==◌, nat_eq}
use ai_agent_hub.Rag.Evaluation.{Arithmetic, Alphabet}

-- A number of thousandths.
abbrev pub thousandths : Arithmetic ℕ
thousandths = record {
  of_nat = λ n. n * 1000;
  add = λ a b. a + b;
  mul = λ a b. a * b / 1000;
  div = λ a b. a * 1000 / b;
  is_zero = λ a. a == 0;
}

abbrev pub ascii : Alphabet
ascii = record { is_word = λ c. leb 97 c && leb c 122; casefold = λ t. t }
