-- ===== src/Fbx/Detect.antt =====
-- fbx/tx.go, `detectText` and `looksCompressed`: what a path and the first bytes of a content say of
-- it. A string is its bytes.
use go_fbx.Base.{ℕ, zero, suc, ◌+◌, ◌*◌, ◌/◌, Bool, true, false, not, ◌&&◌, ◌||◌}
use go_fbx.Base.{List, [], ◌∷◌, length, get_or, leb, ◌==◌, if◌then◌else◌, Bytes, member}
use go_fbx.Paths.{slash, valid_utf8, contains}

-- '.'
abbrev full_stop : ℕ
full_stop = 0x2e

-- `filepath.Ext`: the last part from its last full stop on, with what is the answer so far.
unfoldable ext_from : Bytes → Bytes → Bytes
ext_from [] found = found
ext_from (b ∷ bs) found =
    if b == slash
    then ext_from bs []
    else if b == full_stop
    then ext_from bs (b ∷ bs)
    else ext_from bs found

abbrev byte_is : Bytes → ℕ → ℕ → Bool
byte_is probe i b = get_or probe i 0 == b

-- `strings.ToLower`, as far as the answer can be ASCII: besides the letters A to Z these are the
-- Kelvin sign and the I with a dot, whose lower case is k and i. Other characters keep their bytes
-- here, which none of the extensions below has. The byte for the first character, and how many
-- more it stands for.
abbrev lower_char : Bytes → ℕ × ℕ
lower_char p =
    let b = get_or p 0 0 in
    if b == 0xe2 && (byte_is p 1 0x84 && byte_is p 2 0xaa)
    then (0x6b, 2)
    else if b == 0xc4 && byte_is p 1 0xb0
    then (0x69, 1)
    else if leb 0x41 b && leb b 0x5a
    then (b + 0x20, 0)
    else (b, 0)

-- With some bytes of a character still to skip.
unfoldable lower_from : ℕ → Bytes → Bytes
lower_from n [] = []
lower_from (suc n) (b ∷ bs) = lower_from n bs
lower_from zero (b ∷ bs) = let c = lower_char (b ∷ bs) in c.0 ∷ lower_from c.1 bs

abbrev text_exts : List Bytes
text_exts =
    (46 ∷ 116 ∷ 120 ∷ 116 ∷ [])
    ∷ (46 ∷ 109 ∷ 100 ∷ [])
    ∷ (46 ∷ 106 ∷ 115 ∷ 111 ∷ 110 ∷ [])
    ∷ (46 ∷ 120 ∷ 109 ∷ 108 ∷ [])
    ∷ (46 ∷ 104 ∷ 116 ∷ 109 ∷ 108 ∷ [])
    ∷ (46 ∷ 104 ∷ 116 ∷ 109 ∷ [])
    ∷ (46 ∷ 99 ∷ 115 ∷ 118 ∷ [])
    ∷ (46 ∷ 121 ∷ 97 ∷ 109 ∷ 108 ∷ [])
    ∷ (46 ∷ 121 ∷ 109 ∷ 108 ∷ [])
    ∷ (46 ∷ 102 ∷ 98 ∷ 50 ∷ [])
    ∷ (46 ∷ 111 ∷ 112 ∷ 102 ∷ [])
    ∷ (46 ∷ 99 ∷ 115 ∷ 115 ∷ [])
    ∷ (46 ∷ 106 ∷ 115 ∷ [])
    ∷ []

abbrev compressed_exts : List Bytes
compressed_exts =
    (46 ∷ 106 ∷ 112 ∷ 103 ∷ [])
    ∷ (46 ∷ 106 ∷ 112 ∷ 101 ∷ 103 ∷ [])
    ∷ (46 ∷ 112 ∷ 110 ∷ 103 ∷ [])
    ∷ (46 ∷ 103 ∷ 105 ∷ 102 ∷ [])
    ∷ (46 ∷ 119 ∷ 101 ∷ 98 ∷ 112 ∷ [])
    ∷ (46 ∷ 97 ∷ 118 ∷ 105 ∷ 102 ∷ [])
    ∷ (46 ∷ 104 ∷ 101 ∷ 105 ∷ 99 ∷ [])
    ∷ (46 ∷ 122 ∷ 105 ∷ 112 ∷ [])
    ∷ (46 ∷ 103 ∷ 122 ∷ [])
    ∷ (46 ∷ 98 ∷ 122 ∷ 50 ∷ [])
    ∷ (46 ∷ 120 ∷ 122 ∷ [])
    ∷ (46 ∷ 55 ∷ 122 ∷ [])
    ∷ (46 ∷ 109 ∷ 112 ∷ 51 ∷ [])
    ∷ (46 ∷ 109 ∷ 52 ∷ 97 ∷ [])
    ∷ (46 ∷ 97 ∷ 97 ∷ 99 ∷ [])
    ∷ (46 ∷ 111 ∷ 103 ∷ 103 ∷ [])
    ∷ (46 ∷ 109 ∷ 112 ∷ 52 ∷ [])
    ∷ (46 ∷ 109 ∷ 107 ∷ 118 ∷ [])
    ∷ (46 ∷ 112 ∷ 100 ∷ 102 ∷ [])
    ∷ []

-- `textExt`
unfoldable pub text_ext : Bytes → Bool
unfolding lower_from ext_from
text_ext p = member (lower_from 0 (ext_from p [])) text_exts

-- `compressedExt`
unfoldable pub compressed_ext : Bytes → Bool
unfolding lower_from ext_from
compressed_ext p = member (lower_from 0 (ext_from p [])) compressed_exts

abbrev printable_byte : ℕ → Bool
printable_byte b = b == 10 || (b == 13 || (b == 9 || (leb 32 b && leb b 126)))

unfoldable pub count_printable : Bytes → ℕ
count_printable [] = 0
count_printable (b ∷ bs) =
    let rest = count_printable bs in if printable_byte b then rest + 1 else rest

-- `detectText`
unfoldable pub detect_text : Bytes → Bytes → Bool
detect_text path probe =
    if text_ext path
    then true
    else if length probe == 0
    then false
    else if contains 0 probe
    then false
    else if not (valid_utf8 probe)
    then false
    else leb 85 (count_printable probe * 100 / length probe)

-- The first bytes of a JPEG and of a gzip file.
abbrev two_bytes : Bytes → Bool
two_bytes p = byte_is p 0 0xff && byte_is p 1 0xd8 || byte_is p 0 0x1f && byte_is p 1 0x8b

abbrev png : Bytes → Bool
png p = byte_is p 0 0x89 && (byte_is p 1 0x50 && (byte_is p 2 0x4e && byte_is p 3 0x47))

abbrev zip : Bytes → Bool
zip p =
    byte_is p 0 0x50
    && (byte_is p 1 0x4b
        && ((byte_is p 2 0x03 || (byte_is p 2 0x05 || byte_is p 2 0x07))
            && (byte_is p 3 0x04 || (byte_is p 3 0x06 || byte_is p 3 0x08))))

-- "RIFF" and, four bytes on, "WEBP"
abbrev webp : Bytes → Bool
webp p =
    byte_is p 0 0x52
    && (byte_is p 1 0x49
        && (byte_is p 2 0x46
            && (byte_is p 3 0x46
                && (byte_is p 8 0x57
                    && (byte_is p 9 0x45 && (byte_is p 10 0x42 && byte_is p 11 0x50))))))

-- `looksCompressed`
unfoldable pub looks_compressed : Bytes → Bytes → Bool
looks_compressed path probe =
    compressed_ext path
    || (leb 2 (length probe) && two_bytes probe
        || leb 4 (length probe)
          && (png probe || (zip probe || leb 12 (length probe) && webp probe)))
