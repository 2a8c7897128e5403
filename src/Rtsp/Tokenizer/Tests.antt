-- ===== src/Rtsp/Tokenizer/Tests.antt =====
-- Runs of the tokenizer of src/rtsp_tokenizer.c on the inputs of test/test_rtsp.c.
use openwfd.Common.{none, some, [], ◌∷◌, ◌≡◌, refl, arith}
use openwfd.Common.Memory.{Bytes}
use openwfd.Common.Text.{codes}
use openwfd.Rtsp.Tokenizer.{step, tokenize}
use openwfd.Rtsp.Tokenizer.Tokens.{is_plain, Tokenized, tokenize_lem}

no_token : tokenize (some (λ _. 0)) [] ≡ some (some ([], 0))
unfolding tokenize step
no_token = refl

empty_token :
    tokenize (some (λ _. 0)) (codes "a\"\"b") ≡ some (some (b'a' ∷ 0 ∷ 0 ∷ b'b' ∷ 0 ∷ [], 3))
unfolding tokenize step
empty_token = refl

quoted_escapes :
    tokenize (some (λ _. 0)) (codes "\"\\n\\\\\\r\"") ≡ some (some (10 ∷ 92 ∷ 13 ∷ 0 ∷ [], 1))
unfolding tokenize step
quoted_escapes = refl

separators :
    tokenize (some (λ _. 0)) (codes "a:  (1+")
    ≡ some (some (b'a' ∷ 0 ∷ b':' ∷ 0 ∷ b'(' ∷ 0 ∷ b'1' ∷ b'+' ∷ 0 ∷ [], 4))
unfolding tokenize step
separators = refl

-- The input of the test with the escape `\0`: `dst` is in front of the output.
zero_escape : tokenize (some (λ _. 0)) (codes "\"\\0\\") ≡ none
unfolding tokenize step
zero_escape = refl

-- The escape takes the end of the token in front: two tokens, but one string.
lost_end : tokenize (some (λ _. 0)) (codes "a\"\\0\"") ≡ some (some (b'a' ∷ 0 ∷ [], 2))
unfolding tokenize step
lost_end = refl

abbrev line : Bytes
line = codes "content-args: (50+10) \"x\\\"\" \\"

tokenize_lem_example : Tokenized line (tokenize (some (λ _. 0)) line)
unfolding is_plain
tokenize_lem_example = tokenize_lem (λ _. 0) line refl (omega arith)
