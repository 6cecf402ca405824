-- ===== src/Tests/Client.antt =====
-- An example about the client, with buffers that are lists.
use gnosis.Prelude.{
  ℕ, [], ◌++◌, true, refl, List, ◌∷◌, Bool, ◌≡◌, suc, length, ◌≤◌, ltb, All, zero, ap, take, ◌*◌,
  arith, ◌/◌,
}
use gnosis.Node.Client.{Client, BytesMut, IsBytesMut, Sending, sending, send}
use gnosis.Node.Client.Invariant.{AllDistinct}
use gnosis.Node.Client.Distinct.{send-AllDistinct}
use gnosis.Prelude.Words.{be_bytes}

resize : ℕ → List ℕ → List ℕ
resize zero buffer = []
resize (suc n) [] = 0 ∷ resize n []
resize (suc n) (b ∷ buffer) = b ∷ resize n buffer

length-resize : (n : ℕ) (buffer : List ℕ) → length (resize n buffer) ≡ n
unfolding resize
length-resize zero buffer = refl
length-resize (suc n) [] = ap suc (length-resize n [])
length-resize (suc n) (b ∷ buffer) = ap suc (length-resize n buffer)

take-resize :
    (k n : ℕ) (buffer : List ℕ)
    → k ≤ n
    → k ≤ length buffer
    → take k (resize n buffer) ≡ take k buffer
unfolding resize
take-resize zero n buffer h h' = refl
take-resize (suc k) zero buffer h h' = absurd (omega (arith, h))
take-resize (suc k) (suc n) [] h h' = absurd (omega (arith, h'))
take-resize (suc k) (suc n) (b ∷ buffer) h h' =
    ap (λ l. b ∷ l) (take-resize k n buffer (omega (arith, h)) (omega (arith, h')))

abbrev buffers : BytesMut
buffers = record {
  put_u8 = λ n buffer. buffer ++ n ∷ [];
  put_u64 = λ n buffer. buffer ++ be_bytes 8 n;
  resize = resize;
}

buffers-IsBytesMut : IsBytesMut buffers
buffers-IsBytesMut = record {
  put_u8_lem = λ n buffer. refl;
  put_u64_lem = λ n buffer. refl;
  length-resize = length-resize;
  take-resize = take-resize;
}

-- Transactions of twelve bytes, two in each tick; the connection refuses the sixth.
abbrev client : Client
client = record { target = 1; size = 12; rate = 40; timeout = 0; synctime = 0; nodes = [] }

abbrev five : ℕ → Bool
five n = ltb n 5

send-AllDistinct_example :
    (st : Sending) × (send buffers five client true 7 3 ≡ sending st)
    × AllDistinct st.sent
    × All (λ t. length t ≡ client.size) st.sent
    × (st.running ≡ true → length st.sent ≡ 3 * (client.rate / 20))
send-AllDistinct_example =
    send-AllDistinct buffers five client 7 3 buffers-IsBytesMut (omega arith) (omega arith)
      (omega arith) (omega arith)
