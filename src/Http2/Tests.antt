-- ===== src/Http2/Tests.antt =====
-- luaclib-src/lhttp.c: runs of the frame builders, and the theorems at concrete inputs.
use silly.Common.{
  Option, ◌⊎◌, ◌<◌, ◌≢◌, update, ℕ, ◌+◌, ◌≤◌, ◌≡◌, ◌↔◌, refl, List, [], ◌∷◌, ◌++◌, some, none, true,
  length, take, drop, arith,
}
use silly.Common.Int.{pos, negsuc}
use silly.Http2.Frame.{
  need, frame_headers, end_stream, frame_settings, lframe_build_body, lframe_build_header,
  lframe_build_setting,
}
use silly.Http2.Frame.Receive.{FrameIn, receive, payloads}
use silly.Http2.Frame.Body.{IsBody, lframe_build_body-receive}
use silly.Http2.Frame.Header.{IsBlock, Continued, lframe_build_header-receive}
use silly.Http2.Frame.Control.{read_settings, lframe_build_setting-receive}
use silly.Http2.Table.{Field, Hpack, field_size, begin_block, dynamic_id, add_to_table}
use silly.Http2.Table.Held.{total, IsTable}
use silly.Http2.Table.Refine.{still_unused}
use silly.Http2.Table.Adding.{fits, added, rfc_kept, add_to_table-Adds, add_to_table-forgets}
use silly.Http2.Index.{Entry, push_ik, read_index_kv, write_index_kv}
use silly.Http2.Index.Total.{push_ik-total, read_index_kv-write_index_kv}
use silly.Http2.Huffman.{huffman_encode, write_literal}
use silly.Http2.Huffman.Codes.{huffman_codes, huffman_codelen}
use silly.Http2.Huffman.Length.{write_literal-announces}
use silly.Http2.Varint.{write_varint, read_varint}
use silly.Http2.Varint.RoundTrip.{read_varint-write_varint}

abbrev text : List ℕ
text = 104 ∷ 101 ∷ 108 ∷ 108 ∷ 111 ∷ []

two_frames :
    lframe_build_body 3 2 text true (pos 1) (pos 3)
    ≡ some (
        0 ∷ 0 ∷ 2 ∷ 0 ∷ 0 ∷ 0 ∷ 0 ∷ 0 ∷ 3 ∷ 101 ∷ 108 ∷ 0 ∷ 0 ∷ 1 ∷ 0 ∷ 1 ∷ 0 ∷ 0 ∷ 0 ∷ 3 ∷ 108
        ∷ [])
unfolding lframe_build_body
two_frames = refl

refused : lframe_build_body 3 2 text true (negsuc 0) (pos 3) ≡ none
unfolding lframe_build_body
refused = refl

-- The example of RFC 7541, C.1.2.
number : write_varint 0 1337 5 ≡ 31 ∷ 154 ∷ 10 ∷ []
unfolding write_varint
number = refl

lframe_build_body-receive_example :
    (out : List ℕ) × (frames : List FrameIn) × (lframe_build_body 3 2 text true (pos 1) (pos 3)
      ≡ some out)
    × (receive out ≡ some frames)
    × IsBody 3 2 (end_stream true) frames
    × (payloads frames ≡ take 3 (drop 1 text))
    × (length out ≤ need 2 3 + 9)
lframe_build_body-receive_example =
    lframe_build_body-receive 3 2 1 3 text true (omega arith) (omega arith) (omega arith)
      (omega arith) (omega arith)

lframe_build_header-receive_example :
    (out : List ℕ) × (frames : List FrameIn) × (lframe_build_header 3 2 text true ≡ some out)
    × (receive out ≡ some frames)
    × IsBlock 3 2 frame_headers (end_stream true) frames
    × (payloads frames ≡ text)
    × (length out ≤ need 2 (length text) + 9)
    × (Continued frames ↔ (length text ≤ 2))
lframe_build_header-receive_example =
    lframe_build_header-receive 3 2 text true (omega arith) (omega arith) (omega arith)

-- The example of RFC 7541, C.4.1: "www.example.com".
abbrev host : List ℕ
host = 119 ∷ 119 ∷ 119 ∷ 46 ∷ 101 ∷ 120 ∷ 97 ∷ 109 ∷ 112 ∷ 108 ∷ 101 ∷ 46 ∷ 99 ∷ 111 ∷ 109 ∷ []

host_code :
    write_literal host
    ≡ 140 ∷ 241 ∷ 227 ∷ 194 ∷ 229 ∷ 242 ∷ 58 ∷ 107 ∷ 160 ∷ 171 ∷ 144 ∷ 244 ∷ 255 ∷ []
unfolding write_literal huffman_codes huffman_codelen
host_code = refl

write_literal-announces_example :
    (flag : ℕ) × (content : List ℕ) × (read_varint 7 0 (write_literal host ++ (7 ∷ []))
      ≡ some (pos (length content), flag, content ++ 7 ∷ []))
    × (((flag ≡ 0) × (content ≡ host) × (length host ≤ length (huffman_encode host)))
        ⊎ ((flag ≡ 1) × (content ≡ huffman_encode host) × (length content < length host)))
write_literal-announces_example =
    write_literal-announces host 0 (7 ∷ []) (omega arith) (omega arith)

lframe_build_setting-receive_example :
    (f : FrameIn) × (receive (lframe_build_setting 0 ((3, 100) ∷ (4, 65535) ∷ [])) ≡ some (f ∷ []))
    × (f.kind ≡ frame_settings)
    × (f.flags ≡ 0)
    × (f.stream ≡ 0)
    × (read_settings f.payload ≡ some ((3, 100) ∷ (4, 65535) ∷ []))
lframe_build_setting-receive_example =
    lframe_build_setting-receive 0 ((3, 100) ∷ (4, 65535) ∷ []) (omega arith) (omega arith)
      (omega arith)

read_varint-write_varint_example :
    read_varint 5 0 (write_varint 1 1337 5 ++ (7 ∷ [])) ≡ some (pos 1337, 1, 7 ∷ [])
read_varint-write_varint_example =
    read_varint-write_varint 1 1337 5 0 (7 ∷ []) (omega arith) (omega arith)

-- Two fields of 34 bytes each, and a table of 100 bytes that holds them.
abbrev first : Field
first = record { key = 97 ∷ []; value = 49 ∷ [] }

abbrev second : Field
second = record { key = 98 ∷ []; value = 50 ∷ [] }

abbrev two_fields : Hpack
two_fields = record {
  hard_limit = 100;
  soft_limit = 100;
  table_size = 68;
  queue_head = 3;
  queue_tail = 1;
  queue_used_min = 2;
  evict_count = 0;
  dyna = update (update (λ i. none) 1 (some first)) 2 (some second);
  ids = [];
}

two_fields-IsTable : IsTable two_fields (first ∷ second ∷ []) 1
unfolding total field_size
two_fields-IsTable = record {
  held = (refl, (refl, tt));
  head_is = refl;
  size_is = refl;
  evicted_is = refl;
  unused_is = refl;
  unused_fits = omega arith;
  limit_fits = omega arith;
}

add_to_table-Adds_example :
    (g : Hpack) × (add_to_table two_fields first ≡ some (g, fits 100 first (first ∷ second ∷ []) 1))
    × IsTable g
        (added 100 first (first ∷ second ∷ []) 1)
        (still_unused 100 (field_size first) (first ∷ second ∷ []) 1)
    × (g.soft_limit ≡ 100)
    × (g.table_size ≤ g.soft_limit)
unfolding field_size
add_to_table-Adds_example =
    add_to_table-Adds two_fields first (first ∷ second ∷ []) 1 two_fields-IsTable (omega arith)
      (omega arith)

-- A static table without entries.
abbrev no_static : ℕ → Option Entry
no_static id = none

push_ik-total_example :
    ((older : List Field) × (f : Field) × (newer : List Field) × (first ∷ second ∷ []
        ≡ older ++ f ∷ newer)
      × (63 ≡ 62 + length newer)
      × (push_ik no_static two_fields (pos 63) ≡ some (some f.key)))
    ⊎ ((61 + 2 < 63) × (push_ik no_static two_fields (pos 63) ≡ some none))
push_ik-total_example =
    push_ik-total no_static two_fields (first ∷ second ∷ []) 1 63 two_fields-IsTable (omega arith)

read_index_kv-write_index_kv_example :
    (idx id : ℕ) × (two_fields.dyna idx ≡ some first)
    × (dynamic_id two_fields idx ≡ some id)
    × (read_index_kv no_static two_fields 0 (write_index_kv id ++ (7 ∷ []))
        ≡ some (some (first, 7 ∷ [])))
read_index_kv-write_index_kv_example =
    read_index_kv-write_index_kv no_static two_fields two_fields [] [] first (second ∷ []) 1 1 0
      (7 ∷ []) two_fields-IsTable two_fields-IsTable (omega arith)

add_to_table-forgets_example :
    (g : Hpack) × (add_to_table (begin_block two_fields) first ≡ some (g, true))
    × IsTable g (first ∷ []) 0
    × (rfc_kept 100 (field_size first) ((first ∷ []) ++ second ∷ []) ≢ [])
unfolding total field_size
add_to_table-forgets_example =
    add_to_table-forgets two_fields (first ∷ []) second first 1 two_fields-IsTable (omega arith)
      (omega arith) (omega arith)
