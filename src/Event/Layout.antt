-- ===== src/Event/Layout.antt =====
-- The bytes of whole events, and reading them.
use shellspectre.Base.{
  ℕ, zero, suc, ◌+◌, ◌*◌, ◌^◌, ◌≤◌, ◌<◌, ◌≡◌, refl, ap, ◌∙◌, List, [], ◌∷◌, ◌++◌, arith, length,
  drop, All, to_le, length-append, length-to_le, drop-next, le_at-to_le, slice-at,
}
use shellspectre.Wire.{
  ExecEvent, IoEvent, ExitEvent, exec_size, io_size, exit_size, max_argv_count, max_arg_len,
  max_data_len, max_filename_len,
}
use shellspectre.Wire.Layout.{header_onto, Fits, length-header_onto, header_at-header_onto}
use shellspectre.Event.{rows, exec_at, io_at, exit_at}

rows_onto : List (List ℕ) → List ℕ → List ℕ
rows_onto [] rest = rest
rows_onto (row ∷ rs) rest = row ++ rows_onto rs rest

-- The `repr(C)` layouts, in front of other bytes; `_pad` is 0.
unfoldable pub exec_onto : ExecEvent → List ℕ → List ℕ
unfolding rows_onto
exec_onto e rest =
    header_onto e.header
      (e.filename ++ rows_onto e.argv (to_le 4 e.argc ++ (to_le 4 0 ++ (to_le 8 e.retval ++ rest))))

unfoldable pub io_onto : IoEvent → List ℕ → List ℕ
io_onto e rest =
    header_onto e.header
      (to_le 4 e.fd ++ (to_le 4 e.data_len ++ (to_le 8 e.count ++ (e.payload ++ rest))))

unfoldable pub exit_onto : ExitEvent → List ℕ → List ℕ
exit_onto e rest = header_onto e.header (to_le 4 e.exit_code ++ (to_le 4 0 ++ rest))

abbrev pub IsRow : List ℕ → Type 0
IsRow row = length row ≡ max_arg_len

-- The arrays have their lengths, and the words fit.
pub record ExecFits (e : ExecEvent) : Type 0 where
  pub header : Fits e.header
  pub filename : length e.filename ≡ max_filename_len
  pub argv : All IsRow e.argv
  pub count : length e.argv ≡ max_argv_count
  pub argc : e.argc < 256 ^ 4
  pub retval : e.retval < 256 ^ 8

pub record IoFits (e : IoEvent) : Type 0 where
  pub header : Fits e.header
  pub fd : e.fd < 256 ^ 4
  pub data_len : e.data_len < 256 ^ 4
  pub count : e.count < 256 ^ 8
  pub payload : length e.payload ≡ max_data_len

pub record ExitFits (e : ExitEvent) : Type 0 where
  pub header : Fits e.header
  pub exit_code : e.exit_code < 256 ^ 4

rows-rows_onto :
    (rs : List (List ℕ)) (n off end : ℕ) (rest bytes : List ℕ)
    → All IsRow rs
    → length rs ≡ n
    → off + n * max_arg_len ≡ end
    → drop off bytes ≡ rows_onto rs rest
    → (rows n off bytes ≡ rs) × (drop end bytes ≡ rest)
unfolding rows rows_onto
rows-rows_onto [] zero off end rest bytes a l e d =
    let e' : end ≡ off = omega arith in (refl, ap (λ k. drop k bytes) e' ∙ d)
rows-rows_onto [] (suc n) off end rest bytes a l e d = absurd (omega arith)
rows-rows_onto (r ∷ rs) zero off end rest bytes a l e d = absurd (omega arith)
rows-rows_onto (r ∷ rs) (suc n) off end rest bytes a l e d =
    let next = drop-next off 256 (off + 256) r _ bytes a.0 refl d in
    let ih = rows-rows_onto rs n (off + 256) end rest bytes a.1 (omega arith) (omega arith) next in
    (λ i. slice-at off 256 r _ bytes a.0 d i ∷ ih.0 i, ih.1)

length-rows_onto :
    (rs : List (List ℕ)) (rest : List ℕ)
    → All IsRow rs
    → length (rows_onto rs rest) ≡ length rs * max_arg_len + length rest
unfolding rows_onto
length-rows_onto [] rest a = omega arith
length-rows_onto (r ∷ rs) rest a =
    omega (arith, a.0, length-append r (rows_onto rs rest), length-rows_onto rs rest a.1)

pub exec_at-exec_onto :
    (e : ExecEvent) (rest : List ℕ)
    → ExecFits e
    → (exec_at (exec_onto e rest) ≡ e) × (exec_size ≤ length (exec_onto e rest))
unfolding exec_at exec_onto
exec_at-exec_onto e rest f =
    let bytes = exec_onto e rest in
    let head = header_at-header_onto e.header _ f.header in
    let d80 = head.1 in
    let d336 = drop-next 80 256 336 e.filename _ bytes f.filename refl d80 in
    let args = rows-rows_onto e.argv 20 336 5456 _ bytes f.argv f.count refl d336 in
    let d5456 = args.1 in
    let d5460 = drop-next 5456 4 5460 (to_le 4 e.argc) _ bytes (length-to_le 4 e.argc) refl d5456 in
    let d5464 = drop-next 5460 4 5464 (to_le 4 0) _ bytes (length-to_le 4 0) refl d5460 in
    (
      λ i. record {
        header = head.0 i;
        filename = slice-at 80 256 e.filename _ bytes f.filename d80 i;
        argv = args.0 i;
        argc = le_at-to_le 5456 4 e.argc _ bytes f.argc d5456 i;
        retval = le_at-to_le 5464 8 e.retval _ bytes f.retval d5464 i;
      },
      rw (length-header_onto e.header _ f.header) (
          simp (length-append, length-to_le, length-rows_onto e.argv _ f.argv)
            (omega (arith, f.filename, f.count))),
    )

pub io_at-io_onto :
    (e : IoEvent) (rest : List ℕ)
    → IoFits e
    → (io_at (io_onto e rest) ≡ e) × (io_size ≤ length (io_onto e rest))
unfolding io_at io_onto
io_at-io_onto e rest f =
    let bytes = io_onto e rest in
    let head = header_at-header_onto e.header _ f.header in
    let d80 = head.1 in
    let d84 = drop-next 80 4 84 (to_le 4 e.fd) _ bytes (length-to_le 4 e.fd) refl d80 in
    let d88 = drop-next 84 4 88 (to_le 4 e.data_len) _ bytes (length-to_le 4 e.data_len) refl d84 in
    let d96 = drop-next 88 8 96 (to_le 8 e.count) _ bytes (length-to_le 8 e.count) refl d88 in
    (
      λ i. record {
        header = head.0 i;
        fd = le_at-to_le 80 4 e.fd _ bytes f.fd d80 i;
        data_len = le_at-to_le 84 4 e.data_len _ bytes f.data_len d84 i;
        count = le_at-to_le 88 8 e.count _ bytes f.count d88 i;
        payload = slice-at 96 4096 e.payload _ bytes f.payload d96 i;
      },
      rw (length-header_onto e.header _ f.header)
          (simp (length-append, length-to_le) (omega (arith, f.payload))),
    )

pub exit_at-exit_onto :
    (e : ExitEvent) (rest : List ℕ)
    → ExitFits e
    → (exit_at (exit_onto e rest) ≡ e) × (exit_size ≤ length (exit_onto e rest))
unfolding exit_at exit_onto
exit_at-exit_onto e rest f =
    let bytes = exit_onto e rest in
    let head = header_at-header_onto e.header _ f.header in
    (
      λ i. record {
        header = head.0 i;
        exit_code = le_at-to_le 80 4 e.exit_code _ bytes f.exit_code head.1 i;
      },
      rw (length-header_onto e.header _ f.header)
          (simp (length-append, length-to_le) (omega arith)),
    )
