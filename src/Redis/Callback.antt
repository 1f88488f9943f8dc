-- ===== src/Redis/Callback.antt =====
-- redis_subscriber.cxx: which replies `command_callback` passes on.
use collection_of_mini_proje.Prelude.{
  ℕ, ◌≡◌, refl, Bool, true, false, Option, none, some, [], ◌∷◌, length, ◌⊎◌, inl, inr, ◌↔◌,
}
use collection_of_mini_proje.Redis.{Text}
use collection_of_mini_proje.Redis.Subscriber.{
  Reply, array, scalar, Delivery, ignored, notified, fault, printed, command_callback,
}

-- A message: three strings, of which the second is the channel and the third the text.
pub record Message (reply : Option Reply) (privdata : Bool) (channel message : Text) (len : ℕ)
    : Type 0 where
  pub kind : Text
  pub is_array : reply ≡ some (array (some kind ∷ some channel ∷ some message ∷ []))
  pub has_data : privdata ≡ true
  pub is_length : len ≡ length message

-- Three elements of which one has no string.
pub record Null (reply : Option Reply) (privdata : Bool) : Type 0 where
  pub x : Option Text
  pub y : Option Text
  pub z : Option Text
  pub is_array : reply ≡ some (array (x ∷ y ∷ z ∷ []))
  pub has_data : privdata ≡ true
  pub no_string : (x ≡ none) ⊎ (y ≡ none) ⊎ (z ≡ none)

-- What the callback does with a reply, for every reply.
data Case : Option Reply → Bool → Delivery → Type 0 where
  passed_on :
      {reply : Option Reply} {privdata : Bool} {channel message : Text} {len : ℕ}
      → Message reply privdata channel message len
      → Case reply privdata (notified channel message len)
  left_out : {reply : Option Reply} {privdata : Bool} → Case reply privdata ignored
  faulted :
      {reply : Option Reply} {privdata : Bool} → Null reply privdata → Case reply privdata fault

callback-Case :
    (reply : Option Reply) (privdata : Bool) → Case reply privdata (command_callback reply privdata)
unfolding command_callback printed
callback-Case none privdata = left_out
callback-Case (some (scalar str)) privdata = left_out
callback-Case (some (array [])) privdata = left_out
callback-Case (some (array (x ∷ []))) privdata = left_out
callback-Case (some (array (x ∷ y ∷ []))) privdata = left_out
callback-Case (some (array (x ∷ y ∷ z ∷ []))) false = left_out
callback-Case (some (array (none ∷ y ∷ z ∷ []))) true =
    faulted
      (record { x = none; y = y; z = z; is_array = refl; has_data = refl; no_string = inl refl })
callback-Case (some (array (some x ∷ none ∷ z ∷ []))) true = faulted (record {
  x = some x;
  y = none;
  z = z;
  is_array = refl;
  has_data = refl;
  no_string = inr (inl refl);
})
callback-Case (some (array (some x ∷ some y ∷ none ∷ []))) true = faulted (record {
  x = some x;
  y = some y;
  z = none;
  is_array = refl;
  has_data = refl;
  no_string = inr (inr refl);
})
callback-Case (some (array (some x ∷ some y ∷ some z ∷ []))) true =
    passed_on (record { kind = x; is_array = refl; has_data = refl; is_length = refl })
callback-Case (some (array (x ∷ y ∷ z ∷ w ∷ es))) privdata = left_out

Case-notified :
    {reply : Option Reply} {privdata : Bool} {d : Delivery} {channel message : Text} {len : ℕ}
    → Case reply privdata d
    → d ≡ notified channel message len
    → Message reply privdata channel message len
Case-notified (passed_on m) e = record {
  kind = m.kind;
  is_array = cc (m.is_array, e);
  has_data = m.has_data;
  is_length = cc (m.is_length, e);
}
Case-notified left_out e = cc
Case-notified (faulted n) e = cc

Case-fault :
    {reply : Option Reply} {privdata : Bool} {d : Delivery}
    → Case reply privdata d
    → d ≡ fault
    → Null reply privdata
Case-fault (passed_on m) e = cc
Case-fault left_out e = cc
Case-fault (faulted n) e = n

-- The callback calls the notifier just if the reply is an array of three strings and there is user
-- data; the notifier gets the second string, the third and its length.
pub command_callback-Message :
    (reply : Option Reply) (privdata : Bool) (channel message : Text) (len : ℕ)
    → (command_callback reply privdata ≡ notified channel message len)
      ↔ Message reply privdata channel message len
unfolding command_callback printed
command_callback-Message reply privdata channel message len =
    (Case-notified (callback-Case reply privdata), λ m. rw (m.is_array, m.has_data, m.is_length))

null_fault :
    (x y z : Option Text)
    → (x ≡ none) ⊎ (y ≡ none) ⊎ (z ≡ none)
    → command_callback (some (array (x ∷ y ∷ z ∷ []))) true ≡ fault
unfolding command_callback printed
null_fault none y z h = refl
null_fault (some x) none z h = refl
null_fault (some x) (some y) none h = refl
null_fault (some x) (some y) (some z) (inl e) = cc
null_fault (some x) (some y) (some z) (inr (inl e)) = cc
null_fault (some x) (some y) (some z) (inr (inr e)) = cc

-- The callback outputs a null string, which is undefined, just if the reply is an array of three
-- elements of which one has no string and there is user data.
pub command_callback-Null :
    (reply : Option Reply) (privdata : Bool)
    → (command_callback reply privdata ≡ fault) ↔ Null reply privdata
command_callback-Null reply privdata = (
  Case-fault (callback-Case reply privdata),
  λ n. rw (n.is_array, n.has_data) (null_fault n.x n.y n.z n.no_string),
)
