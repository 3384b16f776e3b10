-- ===== src/Mddb/Wal/Footer.antt =====
-- The footer of the log, and what `readWalState` makes of a whole log.
use agent_task.Prelude.{
  ◌+◌, ◌-◌, ◌^◌, ◌<◌, ◌≡◌, refl, ap, ◌∙◌, ◌++◌, take, drop, length, length-append, take-append,
  drop-append, arith, take_front, drop_behind, take_all,
}
use agent_task.Text.{Bytes, equal_refl, put_le, get_le, length-put_le, get_le-put_le}
use agent_task.Mddb.Words.{inverse, checksum, checksum_bounds}
use agent_task.Mddb.Outcome.{returned}
use agent_task.Mddb.Wal.{committed, wal_magic, footer, field, read_wal_state}

pub length-footer : (body : Bytes) → length (footer body) ≡ 32
unfolding footer
length-footer body =
    let a = put_le 8 (length body) in
    let b = put_le 8 (inverse 64 (length body)) in
    let c = put_le 4 (checksum body) in
    let d = put_le 4 (inverse 32 (checksum body)) in
    omega (
      arith,
      length-append a (b ++ (c ++ d)),
      length-append b (c ++ d),
      length-append c d,
      length-put_le 8 (length body),
      length-put_le 8 (inverse 64 (length body)),
      length-put_le 4 (checksum body),
      length-put_le 4 (inverse 32 (checksum body)),
    )

-- The fields of a footer.
module _ (body : Bytes) where
  pub magic-footer : take 8 (footer body) ≡ wal_magic
  unfolding footer
  magic-footer = refl

  body_len-footer : field 8 8 (footer body) ≡ put_le 8 (length body)
  unfolding footer
  body_len-footer = take_front 8 (put_le 8 (length body)) _ (length-put_le 8 (length body))

  body_len_inv-footer : field 16 8 (footer body) ≡ put_le 8 (inverse 64 (length body))
  unfolding footer
  body_len_inv-footer =
      ap (take 8) (drop_behind 8 0 (put_le 8 (length body)) _ (length-put_le 8 (length body)))
      ∙ take_front 8 (put_le 8 (inverse 64 (length body))) _
          (length-put_le 8 (inverse 64 (length body)))

  crc-footer : field 24 4 (footer body) ≡ put_le 4 (checksum body)
  unfolding footer
  crc-footer =
      ap (take 4) (
        drop_behind 8 8 (put_le 8 (length body)) _ (length-put_le 8 (length body))
        ∙ drop_behind 8 0 (put_le 8 (inverse 64 (length body))) _
            (length-put_le 8 (inverse 64 (length body))))
      ∙ take_front 4 (put_le 4 (checksum body)) _ (length-put_le 4 (checksum body))

  crc_inv-footer : field 28 4 (footer body) ≡ put_le 4 (inverse 32 (checksum body))
  unfolding footer
  crc_inv-footer =
      ap (take 4) (
        drop_behind 8 12 (put_le 8 (length body)) _ (length-put_le 8 (length body))
        ∙ drop_behind 8 4 (put_le 8 (inverse 64 (length body))) _
            (length-put_le 8 (inverse 64 (length body)))
        ∙ drop_behind 4 0 (put_le 4 (checksum body)) _ (length-put_le 4 (checksum body)))
      ∙ take_all 4 (put_le 4 (inverse 32 (checksum body)))
          (length-put_le 4 (inverse 32 (checksum body)))

-- A whole log is committed, with the body that was written.
pub read_wal_state-footer :
    (body : Bytes)
    → length body < 2 ^ 63
    → read_wal_state (body ++ footer body) ≡ returned (committed, body)
unfolding read_wal_state
read_wal_state-footer body h =
    let size : length (body ++ footer body) ≡ length body + 32 =
      omega (arith, length-append body (footer body), length-footer body) in
    let front : length body + 32 - 32 ≡ length body = omega arith in
    let tail : drop (length body) (body ++ footer body) ≡ footer body =
      drop-append body (footer body) in
    let n : get_le (put_le 8 (length body)) ≡ length body =
      get_le-put_le 8 (length body) (omega (arith, h)) in
    let n' : get_le (put_le 8 (inverse 64 (length body))) ≡ inverse 64 (length body) =
      get_le-put_le 8 (inverse 64 (length body)) (omega (arith, h)) in
    let c : get_le (put_le 4 (checksum body)) ≡ checksum body =
      get_le-put_le 4 (checksum body) (checksum_bounds body) in
    let c' : get_le (put_le 4 (inverse 32 (checksum body))) ≡ inverse 32 (checksum body) =
      get_le-put_le 4 (inverse 32 (checksum body)) (omega (arith, checksum_bounds body)) in
    let all : take (length body) (body ++ footer body) ≡ body = take-append body (footer body) in
    rw
      (
        size,
        front,
        tail,
        magic-footer body,
        body_len-footer body,
        body_len_inv-footer body,
        crc-footer body,
        crc_inv-footer body,
        n,
        n',
        c,
        c',
        all,
        equal_refl wal_magic,
      )
      (ground arith)
