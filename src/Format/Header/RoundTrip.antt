-- ===== src/Format/Header/RoundTrip.antt =====
-- `MarshalBinary` and `UnmarshalHeaderV1` are inverse to each other.
use go_fbx.Base.{
  ◌>>=◌, ◌≡◌, refl, true, append-nil, subst, length-zero, ok-injective, length, length-append, ◌==◌,
  ==_iff, arith,
}
use go_fbx.Base.{Bytes, IsBytes, equal, equal_iff}
use go_fbx.Base.{read_uint-put_uint, read_bytes-append, read_bytes_all, length-put_uint}
use go_fbx.Base.{ok, guard-then, read_uint-then, read_bytes-then, invalid_header}
use go_fbx.Format.Header.{
  HeaderV1, IsTyped, IsV1, header_bytes, marshal, unmarshal, is_v1, header_size, magic_header,
}

pub length-header_bytes : (h : HeaderV1) → IsTyped h → length (header_bytes h) ≡ header_size
unfolding header_bytes
length-header_bytes h t = simp (length-append, length-put_uint) (omega arith)

pub marshal_ok : (h : HeaderV1) → IsTyped h → marshal h ≡ ok (header_bytes h)
unfolding marshal
marshal_ok h t = rw (length-header_bytes h t)

is_v1-true : (h : HeaderV1) → IsV1 h → is_v1 h ≡ true
unfolding is_v1 equal
is_v1-true h v = rw (v.magic_ok, v.version_ok, v.header_size_ok) refl

-- A valid header is read back from the bytes that are written for it.
pub unmarshal-header_bytes : (h : HeaderV1) → IsTyped h → IsV1 h → unmarshal (header_bytes h) ≡ ok h
unfolding unmarshal
unmarshal-header_bytes h t v = rw (length-header_bytes h t) (
    unfold header_bytes in
    rw (
      read_bytes-append 4 h.magic _ t.magic_length,
      read_uint-put_uint 2 h.version _ t.version_u16,
      read_uint-put_uint 2 h.header_size _ t.header_size_u16,
      read_uint-put_uint 4 h.flags _ t.flags_u32,
      read_bytes-append 16 h.uuid _ t.uuid_length,
      read_uint-put_uint 8 h.created_unix _ t.created_u64,
      read_uint-put_uint 8 h.dir_offset _ t.dir_offset_u64,
      read_uint-put_uint 8 h.dir_size _ t.dir_size_u64,
      read_uint-put_uint 4 h.dir_crc32 _ t.dir_crc32_u32,
      read_uint-put_uint 8 h.journal_offset _ t.journal_offset_u64,
      read_uint-put_uint 8 h.journal_size _ t.journal_size_u64,
      read_bytes_all 56 h.reserved t.reserved_length,
      is_v1-true h v,
    ))

is_v1-IsV1 : (h : HeaderV1) → is_v1 h ≡ true → IsV1 h
unfolding is_v1
is_v1-IsV1 h e = ground (arith, equal_iff h.magic magic_header)

-- On bytes, `UnmarshalHeaderV1` accepts nothing but the bytes that `MarshalBinary` writes for its
-- answer, which has the types of the struct and the fields that are tested.
pub unmarshal-inv :
    (b : Bytes) {h : HeaderV1}
    → IsBytes b
    → unmarshal b ≡ ok h
    → (header_bytes h ≡ b) × IsTyped h × IsV1 h
unfolding unmarshal header_bytes
unmarshal-inv b {h} hb e = guard-then (length b == header_size) invalid_header _ e λ size e1.
    read_bytes-then invalid_header 4 b _ hb e1 λ magic r1 s1 l1 _ b1 n1 e2.
      read_uint-then invalid_header 2 r1 _ b1 e2 λ version r2 s2 u2 b2 n2 e3.
        read_uint-then _ 2 r2 _ b2 e3 λ hs r3 s3 u3 b3 n3 e4.
          read_uint-then _ 4 r3 _ b3 e4 λ flags r4 s4 u4 b4 n4 e5.
            read_bytes-then _ 16 r4 _ b4 e5 λ uuid r5 s5 l5 _ b5 n5 e6.
              read_uint-then _ 8 r5 _ b5 e6 λ created r6 s6 u6 b6 n6 e7.
                read_uint-then _ 8 r6 _ b6 e7 λ dir_offset r7 s7 u7 b7 n7 e8.
                  read_uint-then _ 8 r7 _ b7 e8 λ dir_size r8 s8 u8 b8 n8 e9.
                    read_uint-then _ 4 r8 _ b8 e9 λ crc r9 s9 u9 b9 n9 e10.
                      read_uint-then _ 8 r9 _ b9 e10 λ joff r10 s10 u10 b10 n10 e11.
                        read_uint-then _ 8 r10 _ b10 e11 λ jsize r11 s11 u11 b11 n11 e12.
                          read_bytes-then _ 56 r11 _ b11 e12 λ reserved r12 s12 l12 _ b12 n12 e13.
                            let x : HeaderV1 = record {
                              magic = magic;
                              version = version;
                              header_size = hs;
                              flags = flags;
                              uuid = uuid;
                              created_unix = created;
                              dir_offset = dir_offset;
                              dir_size = dir_size;
                              dir_crc32 = crc;
                              journal_offset = joff;
                              journal_size = jsize;
                              reserved = reserved;
                            } in
                            guard-then (is_v1 x) invalid_header _ e13 λ v1 e14.
                              let total = (==_iff (length b) header_size).0 size in
                              let end = length-zero r12 (omega arith) in
                              subst (λ x. (header_bytes x ≡ b) × IsTyped x × IsV1 x)
                                (ok-injective e14)
                                (cc (append-nil reserved), omega arith, is_v1-IsV1 x v1)

-- A header with the types of the struct and the fields that are tested is written by
-- `MarshalBinary` without an error and read back by `UnmarshalHeaderV1` as it was.
pub unmarshal-marshal : (h : HeaderV1) → IsTyped h → IsV1 h → (marshal h >>= unmarshal) ≡ ok h
unmarshal-marshal h t v = rw (marshal_ok h t, unmarshal-header_bytes h t v)
