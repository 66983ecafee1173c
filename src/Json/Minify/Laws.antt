-- ===== src/Json/Minify/Laws.antt =====
-- src/json_io.c: what json_compress keeps.
use luminix_experience_platf.Base.{
  ap, Bytes, ◌==◌, Bool, true, false, not, ◌&&◌, [], ◌∷◌, ◌≡◌, refl, arith,
}
use luminix_experience_platf.Json.Minify.{minify_loop, json_compress, compress_minify}

minify_loop_twice :
    (in_string escaped : Bool) (json : Bytes)
    → minify_loop in_string escaped (minify_loop in_string escaped json)
      ≡ minify_loop in_string escaped json
unfolding minify_loop
minify_loop_twice in_string escaped [] = refl
minify_loop_twice false escaped (c ∷ cs) =
    ground (arith, minify_loop_twice false escaped cs, minify_loop_twice (c == 34) escaped cs)
minify_loop_twice true escaped (c ∷ cs) =
    ap (λ r. c ∷ r) (minify_loop_twice (not (not escaped && c == 34)) (c == 92 && not escaped) cs)

pub json_compress_twice :
    (json : Bytes)
    → json_compress (json_compress json compress_minify) compress_minify
      ≡ json_compress json compress_minify
unfolding json_compress
json_compress_twice json = minify_loop_twice false false json
