-- ===== src/Tcp/Message/Pipe.antt =====
-- The bytes between two ends that are the frames of some texts, wherever a read cuts them.
use diginext.Base.{
  ℕ, ◌+◌, ◌<◌, ◌≤◌, ◌^◌, ◌≡◌, refl, sym, ap, ◌∙◌, ◌⊎◌, inl, inr, List, [], ◌∷◌, ◌++◌, map,
  append_assoc, append-nil, flatten, subst, ◌>>=◌, length, length-append, All, ok, arith,
}
use diginext.Base64.Reference.{reference, IsFrameChar, reference-IsFrameChar}
use diginext.Base64.Encode.{length-reference}
use diginext.Tcp.Message.{delimiter, IsFresh, Splitter, read_bytes, collect}
use diginext.Tcp.Message.Lines.{lines, lines-fresh, lines-line}
use diginext.Tcp.Message.Stream.{read_bytes_lem, collect-reference}
use diginext.Tcp.Channel.{IsText, frames_of, texts-IsSendable, non_empty-texts}

-- Where one of two texts ends, in their common extension.
split_append :
    (xs ys us vs : List ℕ)
    → xs ++ ys ≡ us ++ vs
    → ((zs : List ℕ) × (us ≡ xs ++ zs) × (ys ≡ zs ++ vs))
      ⊎ ((zs : List ℕ) × (xs ≡ us ++ zs) × (zs ++ ys ≡ vs))
split_append [] ys us vs e = inl (us, refl, e)
split_append (x ∷ xs) ys [] vs e = inr (x ∷ xs, refl, e)
split_append (x ∷ xs) ys (u ∷ us) vs e = elim (split_append xs ys us vs (ground (arith, e))) [
  | inl (zs, p, q) ↦ inl (zs, ground (arith, e, p), q)
  | inr (zs, p, q) ↦ inr (zs, ground (arith, e, p), q)
]

-- What some texts are cut into: those behind `done` are not complete, and `part` is read of them.
pub record Cut (texts : List (List ℕ)) (read unread : List ℕ) : Type 0 where
  pub done : List (List ℕ)
  pub todo : List (List ℕ)
  pub part : List ℕ
  pub split : texts ≡ done ++ todo
  pub cut : lines read ≡ (map reference done, part)
  pub short : length part < 2 ^ 61
  pub stream : part ++ unread ≡ flatten (frames_of todo)
  pub texts_done : All IsText done
  pub texts_left : All IsText todo
  pub fresh : IsFresh part

IsFresh-frame : (s : List ℕ) → All IsFrameChar s → IsFresh s
IsFresh-frame [] h = tt
IsFresh-frame (x ∷ xs) h = (h.0.1, IsFresh-frame xs h.1)

IsFresh-front : (xs ys : List ℕ) → IsFresh (xs ++ ys) → IsFresh xs
IsFresh-front [] ys h = tt
IsFresh-front (x ∷ xs) ys h = (h.0, IsFresh-front xs ys h.1)

length-front : (xs ys : List ℕ) → length xs ≤ length (xs ++ ys)
length-front xs ys = omega (arith, length-append xs ys)

-- The text is not read to its end.
Cut-before :
    (m : List ℕ) (ms : List (List ℕ)) (read unread zs : List ℕ)
    → All IsText (m ∷ ms)
    → reference m ≡ read ++ zs
    → read ++ unread ≡ flatten (frames_of (m ∷ ms))
    → Cut (m ∷ ms) read unread
Cut-before m ms read unread zs h p e = record {
  done = [];
  todo = m ∷ ms;
  part = read;
  split = refl;
  cut = lines-fresh read clean;
  short = omega (arith, length-front read zs, ap length p, length-reference m, h.0.1);
  stream = e;
  texts_done = tt;
  texts_left = h;
  fresh = clean;
}
  where
    clean : IsFresh read
    clean =
        IsFresh-front read zs
          (subst IsFresh p (IsFresh-frame (reference m) (reference-IsFrameChar m h.0.0)))

-- The frame is read to its end, and more behind it.
Cut-behind :
    (m : List ℕ) (ms : List (List ℕ)) (read unread zs : List ℕ)
    → IsText m
    → read ≡ reference m ++ delimiter ∷ zs
    → Cut ms zs unread
    → Cut (m ∷ ms) read unread
Cut-behind m ms read unread zs h p c = record {
  done = m ∷ c.done;
  todo = c.todo;
  part = c.part;
  split = ap (λ l. m ∷ l) c.split;
  cut =
      ap lines p
      ∙ lines-line (reference m) zs (IsFresh-frame (reference m) (reference-IsFrameChar m h.0))
      ∙ ap (λ r. (reference m ∷ r.0, r.1)) c.cut;
  short = c.short;
  stream = c.stream;
  texts_done = (h, c.texts_done);
  texts_left = c.texts_left;
  fresh = c.fresh;
}

pub Cut-texts :
    (texts : List (List ℕ)) (read unread : List ℕ)
    → All IsText texts
    → read ++ unread ≡ flatten (frames_of texts)
    → Cut texts read unread
Cut-texts [] [] unread h e = record {
  done = [];
  todo = [];
  part = [];
  split = refl;
  cut = unfold lines in refl;
  short = omega arith;
  stream = e;
  texts_done = tt;
  texts_left = tt;
  fresh = tt;
}
Cut-texts [] (x ∷ read) unread h e = absurd (ground (arith, e))
Cut-texts (m ∷ ms) read unread h e =
    elim (split_append read unread (reference m) (delimiter ∷ flatten (frames_of ms))
      (e ∙ append_assoc (reference m) (delimiter ∷ []) (flatten (frames_of ms)))) [
        | inl (zs, p, q) ↦ Cut-before m ms read unread zs h p e
        | inr ([], p, q) ↦
            Cut-before m ms read unread [] h (sym (append-nil read ∙ p ∙ append-nil (reference m)))
              e
        | inr (z ∷ zs, p, q) ↦
            Cut-behind m ms read unread zs h.0
              (p ∙ ap (λ c. reference m ++ c ∷ zs) (ground (arith, q)))
              (Cut-texts ms zs unread h.1 (ground (arith, q)))
      ]

-- A read of a pipe.
pub read_bytes-Cut :
    (b : Splitter) (texts : List (List ℕ)) (part chunk unread : List ℕ)
    → All IsText texts
    → part ++ (chunk ++ unread) ≡ flatten (frames_of texts)
    → length part + length chunk < 2 ^ 62
    → (c : Cut texts (part ++ chunk) unread) × (read_bytes b part chunk ≡ ok (c.done, c.part))
read_bytes-Cut b texts part chunk unread h e small =
    let c : Cut texts (part ++ chunk) unread =
      Cut-texts texts (part ++ chunk) unread h (append_assoc part chunk unread ∙ e) in
    (
      c,
      read_bytes_lem b part chunk small
          ∙ ap (λ r. collect r.0 >>= λ messages. ok (messages, r.1)) c.cut
          ∙ ap (λ o. o >>= λ messages. ok (messages, c.part))
              (collect-reference c.done (texts-IsSendable c.done c.texts_done))
          ∙ ap (λ l. ok (l, c.part)) (non_empty-texts c.done c.texts_done),
    )
