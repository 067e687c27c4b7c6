-- ===== src/Tests/FragmenterRuns.antt =====
-- internal/fragmenter on a small batch.
use retrosampler.Prelude.{◌+◌, ◌*◌, ◌≡◌, refl, List, [], ◌∷◌, ◌++◌, some, none, length}
use retrosampler.Prelude.Bytes.{Bytes}
use retrosampler.Prelude.Ints.{pos}
use retrosampler.Fragmenter.Proto.{uvarint}
use retrosampler.Fragmenter.Value.{Value, string, int, bytes, slice, pair, end, cons, nil}
use retrosampler.Fragmenter.Span.{Span}
use retrosampler.Fragmenter.Group.{
  ScopeSpans, ResourceSpans, SpanRef, put_group, size_group, no_span,
}
use retrosampler.Fragmenter.Group.{no_scope_spans, no_resource_spans, zeros}
use retrosampler.Fragmenter.Varint.{read_varint, read_varint-uvarint}
use retrosampler.Fragmenter.Sizes.Groups.{empty_bytes_group, length-put_group}

abbrev pub checkout_span : Span
checkout_span = record no_span {
  trace_id = zeros 15 ++ (7 ∷ []);
  span_id = zeros 7 ++ (3 ∷ []);
  name = 99 ∷ 104 ∷ [];
  start_timestamp = 5000000;
  end_timestamp = 9000000;
  attributes = pair (107 ∷ []) (bytes []) (pair (109 ∷ []) (int (pos 300)) end);
  status = record { message = []; code = pos 2 };
}

abbrev pub one_scope : ScopeSpans
one_scope = record no_scope_spans { spans = checkout_span ∷ [] }

abbrev pub one_resource : ResourceSpans
one_resource = record no_resource_spans { scope_spans = one_scope ∷ [] }

abbrev refs_of_batch : List SpanRef
refs_of_batch =
    record { rs = 0; ss = 0; sp = 0; next = some 1 }
    ∷ (record { rs = 1; ss = 0; sp = 0; next = none } ∷ [])

read_varint-uvarint_example :
    (bs : Bytes) × (uvarint (8 ∷ []) 300 ≡ (8 ∷ []) ++ bs)
    × (read_varint (bs ++ (1 ∷ [])) ≡ some (300, 1 ∷ []))
read_varint-uvarint_example = read_varint-uvarint (8 ∷ []) 300 (1 ∷ [])

abbrev nested : Value
nested = slice (cons (string (120 ∷ [])) (cons (bytes []) nil))

length-put_group_example :
    length (put_group (one_resource ∷ one_resource ∷ []) [] refs_of_batch)
      + 2 * empty_bytes_group (one_resource ∷ one_resource ∷ []) refs_of_batch
    ≡ 0 + size_group (one_resource ∷ one_resource ∷ []) refs_of_batch
length-put_group_example =
    length-put_group (one_resource ∷ one_resource ∷ [])
      ((((refl, refl, refl, tt), tt), tt), ((((refl, refl, refl, tt), tt), tt), tt)) []
      refs_of_batch
