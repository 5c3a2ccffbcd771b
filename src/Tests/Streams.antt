-- ===== src/Tests/Streams.antt =====
-- Receivers on small streams, calls and flow records.
use looksee.Prelude.{ℕ, String, none, List, [], ◌∷◌, ◌++◌, ◌≡◌, refl, min, arith}
use looksee.Prelude.Text.{Text, codes, show, digits_onto}
use looksee.Receivers.Rate.{Call, offered, accepted, accepted-offered}
use looksee.Receivers.Framing.{
  counted_from, split_line, next_frame, frames, on_text, on_data, receive,
}
use looksee.Receivers.Utf8.{to_string, decode, octet, state_after}
use looksee.Receivers.Streams.{concat_octets, receive-concat}
use looksee.Receivers.Delivery.{octet_counted, receive-octet_counted}
use looksee.Receivers.Flows.{
  Flow, Key, service_port, key_of, same_key, add_flow, add, insert, sort_by_bytes, exporters, top,
  drain_each, drain,
}
use looksee.Prelude.{replicate, map, or_else}
use looksee.Prelude.Bytes.{read_u8, read_u16, read_u32}
use looksee.Receivers.Netflow.{ipv4, v5_record, v5_records, parse_netflow_v5}
use looksee.Receivers.Sums.{bytes_of}

-- The definitions that the tests open.
framing : Unit {0}
unfolding counted_from split_line next_frame frames on_data on_text to_string decode octet receive
    octet_counted show digits_onto
framing = tt

flows : Unit {0}
unfolding service_port key_of same_key add_flow add insert sort_by_bytes exporters top drain_each
    drain
flows = tt

-- "é" and "€" between ASCII octets, cut between characters.
abbrev mixed : List (List ℕ)
mixed =
    (codes "1")
    ∷ (codes "1 hello\nwor")
    ∷ (codes "ld" ++ 195 ∷ 169 ∷ codes "\nre")
    ∷ (226 ∷ 130 ∷ 172 ∷ codes "t")
    ∷ []

mixed_messages : receive [] mixed ≡ (codes "hello\nworld" ∷ codes "é" ∷ [], codes "re€t")
unfolding framing
mixed_messages = refl

-- A character that two chunks share is lost, and so is one that is no UTF-8.
cut_character : receive [] ((195 ∷ []) ∷ (169 ∷ 10 ∷ []) ∷ []) ≡ ((65533 ∷ 65533 ∷ []) ∷ [], [])
unfolding framing
cut_character = refl

bad_octets :
    to_string (240 ∷ 159 ∷ 152 ∷ 128 ∷ 224 ∷ 128 ∷ 65 ∷ 255 ∷ [])
    ≡ 55357 ∷ 56832 ∷ 65533 ∷ 65533 ∷ 65 ∷ 65533 ∷ []
unfolding framing
bad_octets = refl

receive-concat_example : receive [] mixed ≡ on_data [] (concat_octets mixed)
receive-concat_example =
    receive-concat mixed (unfold state_after octet in (refl, (refl, (refl, (refl, tt)))))
      (unfold framing in omega arith)

abbrev two : List Text
two = codes "a\nb" ∷ codes "12 c" ∷ []

receive-octet_counted_example :
    receive [] (codes "3 a\n" ∷ codes "b4 12" ∷ codes " c" ∷ []) ≡ (two, [])
receive-octet_counted_example =
    receive-octet_counted two (codes "3 a\n" ∷ codes "b4 12" ∷ codes " c" ∷ []) (omega arith)
      (unfold framing in refl) (unfold framing in omega arith)

abbrev call : String → ℕ → Call
call source second = record { source = source; second = second }

abbrev calls : List Call
calls = call "switch" 7 ∷ call "nas" 7 ∷ call "switch" 7 ∷ call "switch" 8 ∷ []

accepted-offered_example : accepted "switch" 7 calls (λ u. none) ≡ min (offered "switch" 7 calls) 50
accepted-offered_example =
    accepted-offered "switch" 7 calls (omega arith, (omega arith, (omega arith, (omega arith, tt))))

abbrev flow : String → ℕ → ℕ → ℕ → Flow
flow src from to bytes = record {
  src = src;
  dst = "10.0.0.9";
  protocol = 6;
  src_port = from;
  dst_port = to;
  bytes = bytes;
  packets = 1;
}

abbrev sample : List Flow
sample =
    flow "10.0.0.1" 50123 443 100 ∷ flow "10.0.0.2" 50200 53 900 ∷ flow "10.0.0.1" 50124 443 50 ∷ []

abbrev https : Key
https = record { exporter = "gw"; src = "10.0.0.1"; dst = "10.0.0.9"; protocol = 6; port = 443 }

summed : bytes_of https (add "gw" sample []) ≡ 150
unfolding flows bytes_of
summed = refl

-- Two records claimed, one there.
abbrev packet : List ℕ
packet = 0 ∷ 5 ∷ 0 ∷ 2 ∷ replicate 68 1

one_flow : map (λ f. f.src) (or_else (parse_netflow_v5 packet) []) ≡ "1.1.1.1" ∷ []
unfolding parse_netflow_v5 v5_records v5_record ipv4 read_u8 read_u16 read_u32
one_flow = refl
