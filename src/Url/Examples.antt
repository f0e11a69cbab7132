-- ===== src/Url/Examples.antt =====
-- Concrete texts for the percent-encoding of cloud_client.c.
use yuyin_lingnabei.Prelude.{◌≡◌, ◌<◌, refl, true, false, ◌||◌, [], arith, length, leb}
use yuyin_lingnabei.Prelude.Texts.{codes, is_empty}
use yuyin_lingnabei.Prelude.Errors.{esp_ok, invalid_response}
use yuyin_lingnabei.Url.{encode_chars, url_encode_query_value, url_encode_path_segment}
use yuyin_lingnabei.Url.Decoding.{Encoded, query_value-Encoded, path_segment-Encoded}

space_encoded : url_encode_query_value (codes "a b") 16 ≡ (esp_ok, codes "a%20b")
unfolding url_encode_query_value encode_chars
space_encoded = refl

query_value-Encoded_example : Encoded 16 (codes "a b/?") (url_encode_query_value (codes "a b/?") 16)
query_value-Encoded_example = query_value-Encoded (codes "a b/?") 16 (ground arith) (omega arith)

path_segment-Encoded_example :
    (is_empty (codes "t/1") ≡ false
      → length (codes "t/1") < 64
      → Encoded 32 (codes "t/1") (url_encode_path_segment (codes "t/1") 32))
    × ((is_empty (codes "t/1") || leb 64 (length (codes "t/1"))) ≡ true
        → url_encode_path_segment (codes "t/1") 32 ≡ (invalid_response, []))
path_segment-Encoded_example = path_segment-Encoded (codes "t/1") 32 (ground arith) (omega arith)
