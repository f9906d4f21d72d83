-- ===== src/Scripts/Buffer.antt =====
-- The buffer of a script's text.
use supautils.Prelude.{
  ◌≡◌, refl, ap, ℕ, zero, suc, ◌+◌, ◌-◌, ◌≤◌, ◌<◌, Bool, true, false, some, [], ◌∷◌, ◌++◌, length,
  length-append, take, CString, cstr, arith, if◌then◌else◌,
}
use supautils.Server.{Server}
use supautils.Scripts.{
  snprintf, template_size, max_sql_len, max_pg_path, name_data_len, ScriptOptions, sql_literal,
  script_text, script_sql, piece_file, piece_name, piece_schema, piece_version, piece_cascade,
  piece_end,
}

length-take : (n : ℕ) (l : CString) → length (take n l) ≤ n
length-take zero l = omega arith
length-take (suc n) [] = omega arith
length-take (suc n) (x ∷ l) = omega (arith, length-take n l)

take_all : (n : ℕ) (l : CString) → length l ≤ n → take n l ≡ l
take_all zero [] h = refl
take_all zero (x ∷ l) h = absurd (omega arith)
take_all (suc n) [] h = refl
take_all (suc n) (x ∷ l) h = ap (λ r. x ∷ r) (take_all n l (omega arith))

-- What `snprintf` writes, with the terminator, is within the size, and it is the whole text where
-- that is within the size.
snprintf_lem :
    (size : ℕ) (text : CString)
    → 1 ≤ size
    → (length (snprintf size text) < size) × (length text < size → snprintf size text ≡ text)
unfolding snprintf
snprintf_lem size text h =
    (omega (arith, length-take (size - 1) text), λ k. take_all (size - 1) text (omega arith))

length-joined :
    (f a n b s c v d w g e : CString)
    → length (f ++ a ++ (n ++ b) ++ (s ++ c) ++ (v ++ d) ++ (w ++ g) ++ e)
      ≡ length f
        + length a
        + (length n + length b)
        + (length s + length c)
        + (length v + length d)
        + (length w + length g)
        + length e
length-joined f a n b s c v d w g e = simp length-append

length-cascade : (b : Bool) → length (if b then cstr "'true'" else cstr "'false'") ≤ 7
length-cascade true = omega arith
length-cascade false = omega arith

sizes :
    (f a n b s c v d w g e : ℕ)
    → a ≤ 1024
    → b ≤ 70
    → c ≤ 70
    → d ≤ 70
    → g ≤ 7
    → f + a + (n + b) + (s + c) + (v + d) + (w + g) + e
      < f + n + s + v + w + e + 11 + 1024 + 210 + 6
sizes f a n b s c v d w g e h1 h2 h3 h4 h5 = omega arith

module _ (pg : Server) (filename extname : CString) (o : ScriptOptions) where
  text_fits :
      length (pg.quote_literal_cstr filename) ≤ max_pg_path
      → length (sql_literal pg (some extname)) ≤ name_data_len + 6
      → length (sql_literal pg o.extschema) ≤ name_data_len + 6
      → length (sql_literal pg o.extversion) ≤ name_data_len + 6
      → length (script_text pg filename extname o) < max_sql_len
  unfolding script_text max_sql_len template_size
  text_fits hf hn hs hv =
      rw
        (length-joined piece_file (pg.quote_literal_cstr filename) piece_name
          (sql_literal pg (some extname)) piece_schema (sql_literal pg o.extschema) piece_version
          (sql_literal pg o.extversion) piece_cascade
          (if o.extcascade then cstr "'true'" else cstr "'false'") piece_end)
        (sizes _ _ _ _ _ _ _ _ _ _ _ hf hn hs hv (length-cascade o.extcascade))

  -- The text of a script that is run is the whole text where the quoted file name has at most
  -- MAXPGPATH bytes and the literals of the extension's name, schema and version have at most
  -- NAMEDATALEN + 6 each.
  pub script_sql-script_text :
      length (pg.quote_literal_cstr filename) ≤ max_pg_path
      → length (sql_literal pg (some extname)) ≤ name_data_len + 6
      → length (sql_literal pg o.extschema) ≤ name_data_len + 6
      → length (sql_literal pg o.extversion) ≤ name_data_len + 6
      → script_sql pg filename extname o ≡ script_text pg filename extname o
  unfolding script_sql
  script_sql-script_text hf hn hs hv =
      (snprintf_lem max_sql_len (script_text pg filename extname o) (omega arith)).1
        (text_fits hf hn hs hv)
