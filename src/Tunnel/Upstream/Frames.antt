-- ===== src/Tunnel/Upstream/Frames.antt =====
-- The frames behind a stretch of what was sent, built at the end instead of at the front.
use iwa_brook_quic.Base.{
  ℕ, ◌≡◌, ◌∙◌, refl, sym, ap, subst, List, [], ◌∷◌, ◌++◌, append-nil, append_assoc,
}
use iwa_brook_quic.Framing.{Aead, ok, seal_frame}
use iwa_brook_quic.Tunnel.Outcome.{Sealed, no_frames, one_more, joined_payloads}

pub joined_payloads-append :
    (xs ys : List (List ℕ)) → joined_payloads (xs ++ ys) ≡ joined_payloads xs ++ joined_payloads ys
joined_payloads-append [] ys = refl
joined_payloads-append (x ∷ xs) ys =
    ap (◌++◌ x) (joined_payloads-append xs ys)
    ∙ sym (append_assoc x (joined_payloads xs) (joined_payloads ys))

module _ {K : Type 0} (aead : Aead K) (key : K) where
  -- The frames of some payloads, with the nonce before and the nonce after.
  pub data Frames : List ℕ → List (List ℕ) → List ℕ → List ℕ → Type 0 where
    nothing : {nonce : List ℕ} → Frames nonce [] [] nonce
    framed :
        {nonce nonce' nonce'' payload frame wire : List ℕ} {payloads : List (List ℕ)}
        → seal_frame aead key nonce payload ≡ (nonce', ok frame)
        → Frames nonce' payloads wire nonce''
        → Frames nonce (payload ∷ payloads) (frame ++ wire) nonce''

  Frames-wire :
      {nonce nonce' wire wire' : List ℕ} {payloads : List (List ℕ)}
      → wire ≡ wire'
      → Frames nonce payloads wire nonce'
      → Frames nonce payloads wire' nonce'
  Frames-wire {nonce} {nonce'} {payloads = payloads} same f =
      subst (λ w. Frames nonce payloads w nonce') same f

  pub Frames-snoc :
      {nonce nonce' nonce'' frame wire : List ℕ} {payloads : List (List ℕ)} (payload : List ℕ)
      → Frames nonce payloads wire nonce'
      → seal_frame aead key nonce' payload ≡ (nonce'', ok frame)
      → Frames nonce (payloads ++ (payload ∷ [])) (wire ++ frame) nonce''
  Frames-snoc {frame = frame} payload nothing sealing =
      Frames-wire (append-nil frame) (framed sealing nothing)
  Frames-snoc {frame = frame} payload (framed {frame = f} {wire = w} first more) sealing =
      Frames-wire (sym (append_assoc f w frame)) (framed first (Frames-snoc payload more sealing))

  pub Frames-Sealed :
      {nonce nonce' wire : List ℕ} {payloads : List (List ℕ)}
      → Frames nonce payloads wire nonce'
      → Sealed aead key nonce payloads wire
  Frames-Sealed nothing = no_frames
  Frames-Sealed (framed sealing more) = one_more sealing (Frames-Sealed more)
