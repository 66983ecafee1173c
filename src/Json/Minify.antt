-- ===== src/Json/Minify.antt =====
-- src/json_io.c: json_compress with JSON_COMPRESS_MINIFY, and json_diff_string.
pub mod Laws
use luminix_experience_platf.Base.{
  is_space, Bytes, ◌*◌, ◌/◌, ◌%◌, ◌^◌, ◌==◌, ℕ, zero, suc, ◌+◌, ◌-◌, ◌≤◌, ◌<◌, ℤ, pos, negsuc, Bool,
  true, false, not, ◌&&◌, ◌||◌, List, [], ◌∷◌, ◌++◌, Option, none, some, ◌≡◌, ◌≢◌, ◌↔◌, refl, arith,
  if◌then◌else◌, inl, inr,
}

-- the loop, with `in_string` and `escaped`, which is set in strings only
unfoldable pub minify_loop : Bool → Bool → Bytes → Bytes
minify_loop in_string escaped [] = []
minify_loop false escaped (c ∷ cs) =
    let skipped = minify_loop false escaped cs in
    let kept = minify_loop (c == 34) escaped cs in if is_space c then skipped else c ∷ kept
minify_loop true escaped (c ∷ cs) =
    c ∷ minify_loop (not (not escaped && c == 34)) (c == 92 && not escaped) cs

pub data CompressionType : Type 0 where
  compress_none compress_minify compress_other : CompressionType

unfoldable pub json_compress : Bytes → CompressionType → Bytes
unfolding minify_loop
json_compress json compress_minify = minify_loop false false json
json_compress json t = json
