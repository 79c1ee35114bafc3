-- ===== src/Tim/Valid.antt =====
-- What the calls of witte_linum/drivers/pwm keep to, through the server.
use ulmk_boards.Base.{
  ℕ, ◌≤◌, ◌≡◌, inl, inr, Bool, true, false, not, ◌&&◌, Option, none, some, List, [], ◌∷◌, ◌++◌,
  if◌then◌else◌, leb, ◌==◌, set, arith, Bool-cases,
}
use ulmk_boards.Tim.Server.{
  PwmChannel, TimAct, enable_counter, cc_enable, cc_disable, oc_set_compare, PwmState, channel_of,
  output_of, compare_of, configure_with, pwm_configure, pwm_set_enable, serve_duty,
}
use ulmk_boards.Tim.Fits.{
  ChannelFits, ActFits, AllActs, Valid, AllActs-append, set-AllChannels, get_or-ChannelFits,
  compare_of-ActFits, Found, divide-Found, Found-if,
}

configure_with-Valid :
    (n duty : ℕ) (found : Option (ℕ × ℕ)) (p : PwmState)
    → Found found
    → duty ≤ 1000
    → Valid p
    → Valid (configure_with n duty found p).1
unfolding configure_with Found Valid ChannelFits AllActs ActFits
configure_with-Valid n duty none p f d h = h
configure_with-Valid n duty (some (psc, arr)) p (fp, fa) d (channels, acts) =
    let ch : PwmChannel = record (channel_of n p) {
      period = arr;
      duty = duty;
      configured = true;
    } in
    (
      set-AllChannels p.channels n ch channels (fa, d),
      AllActs-append p.acts _ acts (
        tt,
        (tt, (fp, (fa, (tt, (tt, (tt, (tt, (tt, (compare_of-ActFits ch (fa, d), (tt, tt)))))))))),
      ),
    )

-- A duty, or the enable, of a channel that is kept.
module _ (n : ℕ) (p : PwmState) (valid : Valid p) where
  old_fits : ChannelFits (channel_of n p)
  unfolding Valid
  old_fits = get_or-ChannelFits p.channels n valid.0

  put-Valid :
      (ch : PwmChannel) (more : List TimAct)
      → ChannelFits ch
      → AllActs more
      → Valid (record {
        channels = set p.channels n ch;
        acts = (p.acts ++ oc_set_compare n (output_of ch) (compare_of ch) ∷ []) ++ more;
      })
  unfolding Valid AllActs ActFits
  put-Valid ch more fits acts = (
    set-AllChannels p.channels n ch valid.0 fits,
    AllActs-append _ more (AllActs-append p.acts _ valid.1 (compare_of-ActFits ch fits, tt)) acts,
  )

  pub serve_duty-Valid : (duty : ℕ) → Valid (serve_duty n duty p).1
  unfolding serve_duty ChannelFits AllActs ActFits Valid
  serve_duty-Valid duty =
      let ch : PwmChannel = record (channel_of n p) { duty = duty } in
      elim (Bool-cases (leb duty 1000 && (channel_of n p).configured)) [
        | inr e ↦ rw e valid
        | inl e ↦
            let fits : ChannelFits ch = (old_fits.0, permille duty _ e) in
            rw e (
              set-AllChannels p.channels n ch valid.0 fits,
              AllActs-append p.acts _ valid.1 (compare_of-ActFits ch fits, tt),
            )
      ]
    where
      permille : (d : ℕ) (b : Bool) → (leb d 1000 && b) ≡ true → d ≤ 1000
      permille d b h = ground (arith, h)

  pub pwm_set_enable-Valid : (on : Bool) → Valid (pwm_set_enable n on p).1
  unfolding pwm_set_enable ChannelFits AllActs ActFits
  pwm_set_enable-Valid on =
      let ch : PwmChannel = record (channel_of n p) { enabled = on } in
      elim (Bool-cases (not (channel_of n p).configured)) [
        | inl e ↦ rw e valid
        | inr e ↦ rw e (put-Valid ch _ (old_fits.0, old_fits.1) (switch on (output_of ch)))
      ]
    where
      switch :
          (b : Bool) (out : ℕ)
          → AllActs (
              (if b then cc_enable n out else cc_disable n out)
              ∷ (if b then enable_counter n ∷ [] else []))
      switch true out = (tt, (tt, tt))
      switch false out = (tt, tt)

  pub pwm_configure-Valid :
      (freq_hz duty : ℕ) → duty ≤ 1000 → Valid (pwm_configure n freq_hz duty p).1
  unfolding pwm_configure
  pwm_configure-Valid freq_hz duty d =
      configure_with-Valid n duty _ p (Found-if (freq_hz == 0) _ (divide-Found _)) d valid
