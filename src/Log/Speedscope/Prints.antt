-- ===== src/Log/Speedscope/Prints.antt =====
-- The speedscope key of a frame determines its array.
use mediawiki_php_excimer.Prelude.{◌≡◌, refl, sym, ◌∙◌, some, [], ◌∷◌, ◌++◌, arith}
use mediawiki_php_excimer.Bytes.{Bytes}
use mediawiki_php_excimer.Bytes.Separator.{Lacks, cut_first_unique}
use mediawiki_php_excimer.Run.{ok}
use mediawiki_php_excimer.Zend.{HashApi, str}
use mediawiki_php_excimer.Log.{Frame}
use mediawiki_php_excimer.Log.Key.{codes}
use mediawiki_php_excimer.Log.Name.{get_speedscope_frame_key}
use mediawiki_php_excimer.Log.Name.Plain.{HasFile, no_space-ne-nul, append_frame_name-Appends}
use mediawiki_php_excimer.Log.Trace.{Zval, string, add_string}
use mediawiki_php_excimer.Log.Speedscope.{frame_to_speedscope_array}

module _ ⦃Z : HashApi⦄ where
  -- The name, the key and the array of a frame.
  pub record Prints (f : Frame) (key : Bytes) (array : Z.Table Zval) : Type 0 where
    pub name : Bytes
    pub file : Bytes
    pub lacks : Lacks 0 name
    pub key_eq_parts : key ≡ name ++ (0 ∷ file)
    pub array_eq :
        array
        ≡ add_string
            (Z.add (Z.new Zval) (str (codes "name")) (string name))
            (codes "file")
            (some file)
    pub has_key : get_speedscope_frame_key f ≡ ok key
    pub has_array : frame_to_speedscope_array f ≡ ok array

  pub Prints-total :
      (f : Frame) → HasFile f → (key : Bytes) × (array : Z.Table Zval) × Prints f key array
  unfolding get_speedscope_frame_key frame_to_speedscope_array
  Prints-total f (file, e) =
      let named = append_frame_name-Appends 0 (omega arith) no_space-ne-nul [] f (file, e) tt in
      (
        named.text ++ (0 ∷ file),
        add_string (Z.add (Z.new Zval) (str (codes "name")) (string named.text)) (codes "file")
            (some file),
        record {
          name = named.text;
          file = file;
          lacks = named.plain;
          key_eq_parts = refl;
          array_eq = refl;
          has_key = rw (named.succeeds, e);
          has_array = rw (named.succeeds, e);
        },
      )

  -- Frames with one key have one array.
  pub Prints-unique :
      (f g : Frame) (key : Bytes) (a b : Z.Table Zval) → Prints f key a → Prints g key b → a ≡ b
  Prints-unique f g key a b p q =
      let (names, files) =
        cut_first_unique 0 p.name q.name p.file q.file p.lacks q.lacks
          (sym p.key_eq_parts ∙ q.key_eq_parts) in
      cc (p.array_eq, q.array_eq, names, files)
