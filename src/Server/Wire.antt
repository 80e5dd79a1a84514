-- ===== src/Server/Wire.antt =====
-- server/src/main.c: the bytes of the protocol, as they are sent and read back.
use psvemmc.Base.{
  ℕ, ◌+◌, ◌≤◌, ◌<◌, ◌≡◌, refl, ◌↔◌, none, some, List, [], ◌∷◌, arith, length, word, le32, of_bytes,
  of_bytes-le32, take, drop, overwrite, neg,
}
use psvemmc.Server.Protocol.{Command, Response, code, decode, encode}
use psvemmc.Server.Loop.{received_command}

code-decode : (n : ℕ) (c : Command) → decode n ≡ some c → n ≡ code c
unfolding decode
code-decode n Command.ping h = ground arith
code-decode n c h = ground arith

decode-code : (c : Command) → decode (code c) ≡ some c
unfolding decode
decode-code Command.ping = refl
decode-code c = refl

-- A 32-bit number whose four bytes come whole reaches the handler of a command exactly if it is the
-- code of that command.
received_command-le32 :
    (n : ℕ) (c : Command) → n < word → (received_command (le32 n) ≡ some c) ↔ (n ≡ code c)
unfolding received_command
received_command-le32 n c w =
    let same : of_bytes (overwrite (le32 (neg 1)) (le32 n)) ≡ n = of_bytes-le32 n w in
    rw same (λ h. code-decode n c h, λ e. rw e (decode-code c))

decode_large : (n : ℕ) → 16 ≤ n → decode n ≡ none
unfolding decode
decode_large n h = ground arith

-- If only one, two or three bytes of a command come with a call of `recv`, the command is none,
-- whatever they are, and the switch takes its default, which ends the session.
received_command_part :
    (bytes : List ℕ) → 0 < length bytes → length bytes < 4 → received_command bytes ≡ none
unfolding received_command
received_command_part [] p q = absurd (omega arith)
received_command_part (a ∷ []) p q =
    decode_large (of_bytes (overwrite (le32 (neg 1)) (a ∷ []))) (omega arith)
received_command_part (a ∷ b ∷ []) p q =
    decode_large (of_bytes (overwrite (le32 (neg 1)) (a ∷ b ∷ []))) (omega arith)
received_command_part (a ∷ b ∷ c ∷ []) p q =
    decode_large (of_bytes (overwrite (le32 (neg 1)) (a ∷ b ∷ c ∷ []))) (omega arith)
received_command_part (a ∷ b ∷ c ∷ d ∷ bytes) p q = absurd (omega arith)

-- How a client takes a response apart: three numbers, and the data behind them.
abbrev pub parse : List ℕ → Response
parse bytes = record {
  command = of_bytes (take 4 bytes);
  vita_err = of_bytes (take 4 (drop 4 bytes));
  proxy_err = of_bytes (take 4 (drop 8 bytes));
  content = drop 12 bytes;
}

-- The packed bytes of a response hold its three 32-bit numbers and its data, so that a client that
-- reads the struct back has the response that the server built; they are 12 bytes and the data.
pub parse-encode :
    (r : Response)
    → r.command < word
    → r.vita_err < word
    → r.proxy_err < word
    → (parse (encode r) ≡ r) × (length (encode r) ≡ 12 + length r.content)
parse-encode r a b c = (
  λ i. record {
    command = of_bytes-le32 r.command a i;
    vita_err = of_bytes-le32 r.vita_err b i;
    proxy_err = of_bytes-le32 r.proxy_err c i;
    content = r.content;
  },
  omega arith,
)
